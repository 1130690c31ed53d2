-- ===== src/Tty/Registry/Close.antt =====
-- `NttyCloseDevice` of nttty/tty.c on a device of the list.
use free_nt.Base.{
  ℕ, zero, suc, ◌+◌, ◌-◌, ◌^◌, ◌<◌, ◌≡◌, ◌≢◌, refl, sym, ap, ◌∙◌, true, false, Bool-cases, inl, inr,
  Option, none, some, List, [], ◌∷◌, arith, ◌==◌, ==_iff, if◌then◌else◌, update, update_self,
  update_ne, length, u32, status_success,
}
use free_nt.Tty.Types.{Device}
use free_nt.Tty.Registry.{
  Ptr, Store, Subsystem, head_link, unlink, not_positive, close_handles, close_device,
}
use free_nt.Tty.Registry.Chain.{
  next_field, next_of, unplaced, Chain, Chain-ext, Chain-update, has, remove, AllDistinct,
  SameOutside, unlink-Unlinked,
}

-- What the walk leaves when it started at the head of the list.
pub record Detached (g : Subsystem) (p : Ptr) (ps : List Ptr) (out : Option Subsystem)
    : Type 0 where
  pub store : Store
  pub first : Ptr
  pub returns : out ≡ some (record g { store = store; device_list = first })
  pub chain : Chain store first (remove p ps)
  pub same : SameOutside ps g.store store
  pub keeps : (a : Ptr) → unplaced (store a) ≡ unplaced (g.store a)

unlink-Detached :
    (fuel : ℕ) (g : Subsystem) (p next : Ptr) (ps : List Ptr)
    → Chain g.store g.device_list ps
    → AllDistinct ps
    → has p ps ≡ true
    → next_of g.store p ≡ some next
    → length ps < fuel
    → Detached g p ps (unlink fuel g head_link p next)
unfolding unlink
unlink-Detached zero g p next ps h apart there pd fuel = absurd (omega arith)
unlink-Detached (suc n) g p next [] h apart there pd fuel = absurd (cc)
unlink-Detached (suc n) g p next (q ∷ qs) (e, ne, (b, qb, rest)) (fresh, apart) there pd fuel =
    elim (Bool-cases (q == p)) [
      | inl here ↦
          let e' : q ≡ p = (==_iff q p).0 here in
          let same : b ≡ next = cc in
          record {
            store = g.store;
            first = next;
            returns = ground arith;
            chain = rw here (rw same at rest);
            same = λ a m. refl;
            keeps = λ a. refl;
          }
      | inr other ↦
          let ih =
            unlink-Unlinked n g q p next b qs qb rest fresh apart (ground arith) pd (omega arith) in
          record {
            store = ih.after;
            first = g.device_list;
            returns = ground (arith, ih.returns);
            chain = rw other (e, ne, (ih.first, ih.held, ih.chain));
            same = ih.same;
            keeps = ih.keeps;
          }
    ]

-- What closing the last reference to a device of the list leaves.
pub record Closed (g : Subsystem) (p : Ptr) (d : Device) (ps : List Ptr)
    (out : Option (ℕ × Subsystem)) : Type 0 where
  pub after : Subsystem
  pub returns : out ≡ some (status_success, after)
  pub chain : Chain after.store after.device_list (remove p ps)
  pub gone : after.store p ≡ none
  pub same : SameOutside (p ∷ ps) g.store after.store
  pub keeps : (a : Ptr) → a ≢ p → unplaced (after.store a) ≡ unplaced (g.store a)
  pub count : after.device_count ≡ g.device_count - 1
  pub handles : after.closed ≡ close_handles d g.closed
  pub initialized : after.initialized ≡ g.initialized

not-has-remove_self : (p : Ptr) (ps : List Ptr) → AllDistinct ps → has p (remove p ps) ≡ false
not-has-remove_self p [] apart = refl
not-has-remove_self p (q ∷ qs) (fresh, apart) = elim (Bool-cases (q == p)) [
  | inl here ↦ let e : q ≡ p = (==_iff q p).0 here in rw here (rw e at fresh)
  | inr other ↦ rw other (ground (arith, not-has-remove_self p qs apart))
]

next_of-update :
    (store : Store) (p a : Ptr) (d d' : Device)
    → store p ≡ some d
    → d'.next ≡ d.next
    → next_of (update store p (some d')) a ≡ next_of store a
next_of-update store p a d d' h same = elim (Bool-cases (p == a)) [
  | inl e ↦
      let here : p ≡ a = (==_iff p a).0 e in
      rw e (ap some same ∙ sym (ap next_field (ap store (sym here) ∙ h)))
  | inr e ↦ rw e
]

abbrev released : Device → Device
released d = record d { ref_count = u32 (d.ref_count + 2 ^ 32 - 1) }

count_down : (n : ℕ) → (if n == 0 then 0 else n - 1) ≡ n - 1
count_down n = ground arith

close_device_last :
    (fuel : ℕ) (g : Subsystem) (p : Ptr) (d : Device) (store : Store) (first : Ptr)
    → p ≢ 0
    → g.store p ≡ some d
    → d.ref_count ≡ 1
    → unlink fuel (record g { store = update g.store p (some (released d)) }) head_link p d.next
      ≡ some (record g { store = store; device_list = first })
    → close_device fuel g p
      ≡ some (
        status_success,
        record g {
          device_count = g.device_count - 1;
          device_list = first;
          store = update store p none;
          closed = close_handles d g.closed;
        },
      )
unfolding close_device
close_device_last fuel g p d store first ne held one walk =
    let given : p == 0 ≡ false = ground arith in
    let last : not_positive (released d).ref_count ≡ true = rw one in
    rw (given, held, last, walk)
      (ap
        (λ n. some (
          status_success,
          record g {
            device_count = n;
            device_list = first;
            store = update store p none;
            closed = close_handles d g.closed;
          },
        ))
        (count_down g.device_count))

-- Closing a device of the list that has one reference succeeds: the device is freed and leaves the
-- list, whose other devices keep their order and all that they hold; nothing off the list changes, the
-- count goes down by one (not below 0), and exactly the handles of the device are closed.
pub close_device-Closed :
    (fuel : ℕ) (g : Subsystem) (p : Ptr) (d : Device) (ps : List Ptr)
    → Chain g.store g.device_list ps
    → AllDistinct ps
    → has p ps ≡ true
    → p ≢ 0
    → g.store p ≡ some d
    → d.ref_count ≡ 1
    → length ps < fuel
    → Closed g p d ps (close_device fuel g p)
close_device-Closed fuel g p d ps h apart there ne held one enough =
    let g' : Subsystem = record g { store = update g.store p (some (released d)) } in
    let way : next_of g'.store p ≡ some d.next = ap next_field (update_self g.store p _) in
    let chain' : Chain g'.store g'.device_list ps =
      Chain-ext g.store g'.store g.device_list ps
        (λ a m. next_of-update g.store p a d (released d) held refl) h in
    let det = unlink-Detached fuel g' p d.next ps chain' apart there way enough in
    record {
      after = record g {
        device_count = g.device_count - 1;
        device_list = det.first;
        store = update det.store p none;
        closed = close_handles d g.closed;
      };
      returns = close_device_last fuel g p d det.store det.first ne held one det.returns;
      chain =
          Chain-update det.store p det.first none (remove p ps) (not-has-remove_self p ps apart)
            det.chain;
      gone = update_self det.store p none;
      same = λ a m.
          let off : p ≢ a = ground arith in
          update_ne det.store none off ∙ det.same a (ground arith) ∙ update_ne g.store _ off;
      keeps = λ a off.
          let off' : p ≢ a = λ e. off (sym e) in
          ap unplaced (update_ne det.store none off')
          ∙ det.keeps a
          ∙ ap unplaced (update_ne g.store _ off');
      count = refl;
      handles = refl;
      initialized = refl;
    }
