-- ===== src/Tty/Registry/Shutdown.antt =====
-- `NttyShutdown` of nttty/tty.c closes every device.
use free_nt.Base.{
  Bool-cases, inl, inr, ==_iff, ℕ, zero, suc, ◌<◌, ◌≡◌, ◌≢◌, refl, sym, ap, ◌∙◌, true, false,
  Option, none, some, List, [], ◌∷◌, arith, length, ◌==◌, ==_refl, status_success,
}
use free_nt.Tty.Types.{Device}
use free_nt.Tty.Registry.{Ptr, Store, Subsystem, close_device, shutdown_loop, shutdown}
use free_nt.Tty.Registry.Chain.{
  SameOutside, next_of-some, unplaced, Chain, has, has-ne, remove, AllDistinct,
}
use free_nt.Tty.Registry.Close.{Closed, close_device-Closed}

abbrev pub references_field : Option Device → Option ℕ
references_field none = none
references_field (some d) = some d.ref_count

references-unplaced : (o : Option Device) → references_field (unplaced o) ≡ references_field o
references-unplaced none = refl
references-unplaced (some d) = refl

-- Every device of the list has one reference.
abbrev pub AllSole : Store → List Ptr → Type 0
AllSole store ps = (a : Ptr) → has a ps ≡ true → references_field (store a) ≡ some 1

head_unique : (s t : Store) (p q : Ptr) (ps : List Ptr) → Chain s p ps → Chain t q ps → p ≡ q
head_unique s t p q [] h k = h ∙ sym k
head_unique s t p q (r ∷ rs) h k = h.0 ∙ sym k.0

-- The list is empty and its devices, but no others, are freed.
pub record Emptied (g : Subsystem) (ps : List Ptr) (out : Option Subsystem) : Type 0 where
  pub after : Subsystem
  pub returns : out ≡ some after
  pub empty : after.device_list ≡ 0
  pub gone : (a : Ptr) → has a ps ≡ true → after.store a ≡ none
  pub same : SameOutside ps g.store after.store

shutdown_step :
    (fuel rounds : ℕ) (g g' : Subsystem) (p : Ptr) (d : Device) (s : ℕ)
    → p ≢ 0
    → g.store p ≡ some d
    → close_device fuel g p ≡ some (s, g')
    → shutdown_loop fuel (suc rounds) g p ≡ shutdown_loop fuel rounds g' d.next
unfolding shutdown_loop
shutdown_step fuel rounds g g' p d s ne held ran =
    let given : p == 0 ≡ false = ground arith in rw (given, held, ran, shutdown_loop)

sole_count : (d : Device) → some d.ref_count ≡ some 1 → d.ref_count ≡ 1
sole_count d h = ground arith

Chain-remove_head :
    (s : Store) (p q : Ptr) (qs : List Ptr) → Chain s p (remove q (q ∷ qs)) → Chain s p qs
Chain-remove_head s p q qs h = rw ==_refl at h

shutdown_loop_done :
    (fuel rounds : ℕ) (g : Subsystem) (p : Ptr)
    → p ≡ 0
    → shutdown_loop fuel (suc rounds) g p ≡ some g
unfolding shutdown_loop
shutdown_loop_done fuel rounds g p e = rw (e, shutdown_loop)

-- The references of the devices that are left.
AllSole-Closed :
    {g : Subsystem} {q : Ptr} {d : Device} {qs : List Ptr} {out : Option (ℕ × Subsystem)}
    → AllSole g.store (q ∷ qs)
    → has q qs ≡ false
    → (closed : Closed g q d (q ∷ qs) out) → AllSole closed.after.store qs
AllSole-Closed {g} {q} {qs} sole fresh closed a m =
    sym (references-unplaced (closed.after.store a))
    ∙ ap references_field (closed.keeps a (λ (f : a ≡ q). has-ne q a qs fresh m (sym f)))
    ∙ references-unplaced (g.store a)
    ∙ sole a (ground arith)

Emptied-cons :
    {g : Subsystem} {q : Ptr} {d : Device} {qs : List Ptr} {o : Option (ℕ × Subsystem)}
    {out : Option Subsystem}
    → has q qs ≡ false
    → (closed : Closed g q d (q ∷ qs) o) → Emptied closed.after qs out
    → Emptied g (q ∷ qs) out
Emptied-cons {q} {qs} fresh closed ih = record {
  after = ih.after;
  returns = ih.returns;
  empty = ih.empty;
  gone = λ a m. elim (Bool-cases (q == a)) [
    | inl here ↦
        let e : q ≡ a = (==_iff q a).0 here in
        ap ih.after.store (sym e) ∙ ih.same q fresh ∙ closed.gone
    | inr other ↦ ih.gone a (ground arith)
  ];
  same = λ a m. ih.same a (ground arith) ∙ closed.same a (ground arith);
}

shutdown_loop-Emptied :
    (fuel rounds : ℕ) (g : Subsystem) (p : Ptr) (ps : List Ptr)
    → Chain g.store p ps
    → Chain g.store g.device_list ps
    → AllDistinct ps
    → AllSole g.store ps
    → length ps < fuel
    → length ps < rounds
    → Emptied g ps (shutdown_loop fuel rounds g p)
shutdown_loop-Emptied fuel zero g p ps h l apart sole enough more = absurd (omega arith)
shutdown_loop-Emptied fuel (suc rounds) g p [] h l apart sole enough more = record {
  after = g;
  returns = shutdown_loop_done fuel rounds g p h;
  empty = l;
  gone = λ a m. absurd (cc);
  same = λ a m. refl;
}
shutdown_loop-Emptied fuel (suc rounds) g p (q ∷ qs) (e, ne, (b, way, rest)) l (fresh, apart) sole
      enough more =
    let (d, held, next) = next_of-some g.store q b way in
    let closed =
      close_device-Closed fuel g q d (q ∷ qs) l (fresh, apart) (rw ==_refl) ne held
        (sole_count d (ap references_field (sym held) ∙ sole q (rw ==_refl))) enough in
    let left = Chain-remove_head closed.after.store closed.after.device_list q qs closed.chain in
    let start = head_unique closed.after.store g.store closed.after.device_list b qs left rest in
    let ih =
      shutdown_loop-Emptied fuel rounds closed.after d.next qs (rw (next ∙ sym start) left) left
        apart (AllSole-Closed sole fresh closed) (omega arith) (omega arith) in
    rw (e, shutdown_step fuel rounds g closed.after q d status_success ne held closed.returns)
      (Emptied-cons fresh closed ih)

-- `NttyShutdown` closes every device of an initialised subsystem whose devices have one reference each:
-- it returns success, the list is empty, its devices are freed, no other memory changes, and the
-- subsystem is no longer initialised.
pub shutdown-Emptied :
    (fuel : ℕ) (g : Subsystem) (ps : List Ptr)
    → Chain g.store g.device_list ps
    → AllDistinct ps
    → AllSole g.store ps
    → g.initialized ≡ true
    → length ps < fuel
    → (g' : Subsystem) × (shutdown fuel g ≡ some (status_success, g'))
      × (g'.device_list ≡ 0)
      × ((a : Ptr) → has a ps ≡ true → g'.store a ≡ none)
      × SameOutside ps g.store g'.store
      × (g'.initialized ≡ false)
unfolding shutdown
shutdown-Emptied fuel g ps h apart sole on enough =
    let done = shutdown_loop-Emptied fuel fuel g g.device_list ps h h apart sole enough enough in
    (
      record done.after { initialized = false },
      ground (arith, done.returns),
      done.empty,
      done.gone,
      done.same,
      refl,
    )
