-- ===== src/Pool/Spec.antt =====
-- What the pool promises, with no mutex, no clock and no loop: a first-in first-out service with a
-- bounded waiting room and one place for each worker.
use mathlib.Core.List.{Perm, perm_middle, perm_append_singleton, append_assoc, append-nil}
use mathlib.Core.List.Perm
use multithreading_labs.Base.{
  ℕ, zero, suc, ◌<◌, ◌≡◌, refl, sym, ap, ◌∙◌, subst, ◌⊎◌, inl, inr, Option, none, some, Bool, true,
  false, List, [], ◌∷◌, ◌++◌, arith, length, get_elem?, set,
}

pub record Spec (T : Type 0) : Type 0 where
  pub capacity : ℕ
  pub accepting : Bool
  pub waiting : List T
  pub places : List (Option T)
  pub accepted : List T
  pub started : List T
  pub completed : List T
  pub discarded : List T

module _ {T : Type 0} where
  pub data Move (s : Spec T) : Spec T → Type 0 where
    accepts :
        (t : T)
        → s.accepting ≡ true
        → length s.waiting < s.capacity
        → Move s (record s { waiting = s.waiting ++ (t ∷ []); accepted = s.accepted ++ (t ∷ []) })
    starts :
        (i : ℕ) (t : T) (rest : List T)
        → get_elem? s.places i ≡ some none
        → s.waiting ≡ t ∷ rest
        → Move s (record s {
          waiting = rest;
          places = set s.places i (some t);
          started = s.started ++ (t ∷ []);
        })
    completes :
        (i : ℕ) (t : T)
        → get_elem? s.places i ≡ some (some t)
        → Move s (record s { places = set s.places i none; completed = s.completed ++ (t ∷ []) })
    closes : Move s (record s { accepting = false })
    discards :
        Move s (record s { accepting = false; waiting = []; discarded = s.discarded ++ s.waiting })

  -- The tasks that are being worked on.
  abbrev pub in_work : List (Option T) → List T
  in_work [] = []
  in_work (none ∷ places) = in_work places
  in_work (some t ∷ places) = t ∷ in_work places

  pub record Holds (s : Spec T) : Type 0 where
    pub in_order : s.accepted ≡ s.started ++ (s.discarded ++ s.waiting)
    pub all_there : Perm s.started (s.completed ++ in_work s.places)
    pub final : (s.discarded ≡ []) ⊎ ((s.waiting ≡ []) × (s.accepting ≡ false))

  in_work-put :
      (places : List (Option T)) (i : ℕ) (t : T)
      → get_elem? places i ≡ some none
      → Perm (t ∷ in_work places) (in_work (set places i (some t)))
  in_work-put [] i t e = cc
  in_work-put (none ∷ places) zero t e = Perm.refl _
  in_work-put (some u ∷ places) zero t e = cc
  in_work-put (none ∷ places) (suc i) t e = in_work-put places i t e
  in_work-put (some u ∷ places) (suc i) t e =
      Perm.trans (Perm.swap u t _) (Perm.cons u (in_work-put places i t e))

  in_work-take :
      (places : List (Option T)) (i : ℕ) (t : T)
      → get_elem? places i ≡ some (some t)
      → Perm (in_work places) (t ∷ in_work (set places i none))
  in_work-take [] i t e = cc
  in_work-take (none ∷ places) zero t e = cc
  in_work-take (some u ∷ places) zero t e = let same : u ≡ t = cc in rw same (Perm.refl _)
  in_work-take (none ∷ places) (suc i) t e = in_work-take places i t e
  in_work-take (some u ∷ places) (suc i) t e =
      Perm.trans (Perm.cons u (in_work-take places i t e)) (Perm.swap t u _)

  accepting-none : (s : Spec T) → Holds s → s.accepting ≡ true → s.discarded ≡ []
  accepting-none s h e = elim h.final [ inl none_yet ↦ none_yet | inr (w, closed) ↦ cc ]

  waiting-none :
      (s : Spec T) (t : T) (rest : List T) → Holds s → s.waiting ≡ t ∷ rest → s.discarded ≡ []
  waiting-none s t rest h e = elim h.final [ inl none_yet ↦ none_yet | inr (w, closed) ↦ cc ]

  pub Move-Holds : {s s' : Spec T} → Holds s → Move s s' → Holds s'
  Move-Holds {s} h (accepts t open_ room) = record {
    in_order = ground (
      arith,
      append_assoc s.started s.discarded s.waiting,
      append_assoc (s.started ++ s.discarded) s.waiting (t ∷ []),
      append_assoc s.started s.discarded (s.waiting ++ (t ∷ [])),
    );
    all_there = h.all_there;
    final = inl (accepting-none s h open_);
  }
  Move-Holds {s} h (starts i t rest free first) =
      let nothing = waiting-none s t rest h first in
      record {
        in_order = ground (arith, nothing, append_assoc s.started (t ∷ []) rest);
        all_there = Perm.trans (Perm.append_right (t ∷ []) h.all_there) (
            Perm.trans (perm_append_singleton t (s.completed ++ in_work s.places)) (
              Perm.trans (Perm.symm (perm_middle s.completed (in_work s.places)))
                (Perm.append_left s.completed (in_work-put s.places i t free))));
        final = inl nothing;
      }
  Move-Holds {s} h (completes i t busy) = record {
    in_order = h.in_order;
    all_there =
        subst (Perm s.started)
          (sym (append_assoc s.completed (t ∷ []) (in_work (set s.places i none))))
          (Perm.trans h.all_there (Perm.append_left s.completed (in_work-take s.places i t busy)));
    final = h.final;
  }
  Move-Holds {s} h closes = record {
    in_order = h.in_order;
    all_there = h.all_there;
    final = elim h.final [ inl e ↦ inl e | inr (w, closed) ↦ inr (w, refl) ];
  }
  Move-Holds {s} h discards = record {
    in_order = ground (arith, append-nil (s.discarded ++ s.waiting));
    all_there = h.all_there;
    final = inr (refl, refl);
  }

  -- When nobody works, nothing waits and nothing was thrown away, all that was accepted is done.
  pub Holds-done :
      (s : Spec T)
      → Holds s
      → in_work s.places ≡ []
      → s.waiting ≡ []
      → s.discarded ≡ []
      → (s.accepted ≡ s.started) × Perm s.accepted s.completed
  Holds-done s h idle empty kept =
      let same : s.accepted ≡ s.started = ground (arith, append-nil s.started) in
      (
        same,
        subst (λ (xs : List T). Perm xs s.completed) (sym same)
            (subst (Perm s.started) (ap (◌++◌ s.completed) idle ∙ append-nil s.completed)
              h.all_there),
      )
