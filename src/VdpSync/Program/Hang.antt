-- ===== src/VdpSync/Program/Hang.antt =====
-- scu/bus/b/vdp/vdp_sync.c: a list that is put while another one is on its way.
use libyaul.Base.{
  ℕ, ◌<◌, ◌≡◌, ◌≢◌, refl, Bool, true, false, ◌&&◌, ◌||◌, not, List, [], ◌∷◌, none, some, ltb, arith,
}
use libyaul.Base.Ranges.{all_below, all_below_sound}
use libyaul.VdpSync.{
  sync_requested, calls, Interrupt, vblank_in, vblank_out, sprite_end, State, Action, Mode, auto,
  fixed, variable, has, with_bit, without, handle, request_xfer_list, list_xferred,
  request_commit_list, list_committed, vblank_in_handler, vblank_out_handler, sprite_end_call,
  auto_sprite_end, variable_sprite_end,
}
use libyaul.VdpSync.Program.{PutArgs, sync_put_call, auto_sync_put, wait_xferred}

-- Six bits of flags, and no transfer complete.
waiting : ℕ → Bool
waiting f = ltb f 64 && not (has f list_xferred)

-- What a sprite-end interrupt does to the flags keeps them so.
kept : ℕ → Bool
unfolding waiting
kept f =
    not (waiting f)
    || (waiting (with_bit f list_committed)
        && waiting (with_bit (without f request_commit_list) list_committed))

kept_lem :
    (f : ℕ)
    → waiting f ≡ true
    → (waiting (with_bit f list_committed) ≡ true)
      × (waiting (with_bit (without f request_commit_list) list_committed) ≡ true)
unfolding kept all_below
kept_lem f w = split (all_below_sound 64 kept f refl (below w))
  where
    below : waiting f ≡ true → f < 64
    below w = ground (arith, w)

    split :
        kept f ≡ true
        → (waiting (with_bit f list_committed) ≡ true)
          × (waiting (with_bit (without f request_commit_list) list_committed) ≡ true)
    split k = ground (arith, w, k)

pending : (f : ℕ) → waiting f ≡ true → has f list_xferred ≡ false
unfolding waiting
pending f w = ground (arith, w)

-- One interrupt, while no sync is requested.
handle-unsynced :
    (i : Interrupt) (mode : Mode) (f : ℕ) (s : State)
    → has s.flags sync_requested ≡ false
    → waiting f ≡ true
    → (out : List Action) × (f' : ℕ) × (handle i (record s { interval_mode = mode; vdp1_flags = f })
        ≡ some (out, record s { interval_mode = mode; vdp1_flags = f' }))
      × (waiting f' ≡ true)
unfolding handle vblank_in_handler vblank_out_handler sprite_end_call auto_sprite_end
    variable_sprite_end
handle-unsynced vblank_in mode f s h w = (calls s.vblank_in_callback ∷ [], f, rw h refl, w)
handle-unsynced vblank_out mode f s h w = (calls s.vblank_out_callback ∷ [], f, rw h refl, w)
handle-unsynced sprite_end auto f s h w = (_, _, refl, (kept_lem f w).0)
handle-unsynced sprite_end fixed f s h w = (_, f, refl, w)
handle-unsynced sprite_end variable f s h w = (_, _, refl, (kept_lem f w).1)

wait_xferred-none :
    (is : List Interrupt) (mode : Mode) (f : ℕ) (s : State)
    → has s.flags sync_requested ≡ false
    → waiting f ≡ true
    → wait_xferred is (record s { interval_mode = mode; vdp1_flags = f }) ≡ none
unfolding wait_xferred
wait_xferred-none [] mode f s h w = rw (pending f w) refl
wait_xferred-none (i ∷ is) mode f s h w =
    let (out, f', e, w') = handle-unsynced i mode f s h w in
    rw (pending f w, wait_xferred) (rw e (rw (wait_xferred-none is mode f' s h w') refl))

waiting_lem : (f : ℕ) → f < 64 → has f list_xferred ≡ false → waiting f ≡ true
unfolding waiting
waiting_lem f l p = ground (arith, l, p)

auto_sync_put-hangs :
    (is : List Interrupt) (args : PutArgs) (s : State)
    → has s.vdp1_flags request_xfer_list ≡ true
    → wait_xferred is s ≡ none
    → auto_sync_put is args s ≡ none
unfolding auto_sync_put
auto_sync_put-hangs is args s x w = rw (x, auto_sync_put) (rw w refl)

-- In the modes `auto` and `variable`, outside `vdp_sync`, a list that is put while the transfer of
-- another one is not complete waits for ever: no interrupts, however many, end the wait.
pub sync_put_call-hangs :
    (is : List Interrupt) (args : PutArgs) (s : State)
    → s.interval_mode ≢ fixed
    → has s.flags sync_requested ≡ false
    → s.vdp1_flags < 64
    → has s.vdp1_flags request_xfer_list ≡ true
    → has s.vdp1_flags list_xferred ≡ false
    → sync_put_call is args s ≡ none
unfolding sync_put_call
sync_put_call-hangs is args s n h l x p = by_mode s.interval_mode refl
  where
    waits : wait_xferred is s ≡ none
    waits = wait_xferred-none is s.interval_mode s.vdp1_flags s h (waiting_lem s.vdp1_flags l p)

    by_mode : (m : Mode) → s.interval_mode ≡ m → sync_put_call is args s ≡ none
    by_mode auto e = rw (e, sync_put_call) (auto_sync_put-hangs is args s x waits)
    by_mode fixed e = absurd (n e)
    by_mode variable e = rw (e, sync_put_call) (auto_sync_put-hangs is args s x waits)
