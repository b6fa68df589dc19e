-- ===== src/Plan/Phase/Paths.antt =====
-- What a plan can go through.
use neuralhub.Base.{
  ◌≡◌, refl, sym, ◌≢◌, ◌↔◌, ◌⊎◌, inl, inr, Bool, true, false, List, [], ◌∷◌, arith, Elem, Result,
  ok, raise, ok-injective, Result-cases,
}
use mathlib.Core.Bool.{false≢true}
use neuralhub.Plan.Phase.{
  PlanPhase, idle, recon, planning, plan_ready, confirming, awaiting_approval, executing, completed,
  partial_failed, cancelled, validate_transition, transition, is_terminal, invalid_transition,
}

-- The phases that a plan runs through, one `transition` after the other; the first refusal ends it.
unfoldable pub follow : PlanPhase → List PlanPhase → Result PlanPhase
follow p [] = ok p
follow p (q ∷ qs) = elim (transition p q) [ ok r ↦ follow r qs | raise e ↦ raise e ]

sink :
    (p : PlanPhase)
    → transition p cancelled ≡ raise (invalid_transition p cancelled)
    → is_terminal p ≡ true
unfolding is_terminal transition
sink completed e = refl
sink p e = ground arith

stuck : (p q : PlanPhase) → is_terminal p ≡ true → transition p q ≡ raise (invalid_transition p q)
unfolding is_terminal transition
stuck completed q h = refl
stuck partial_failed q h = refl
stuck cancelled q h = refl
stuck p q h = cc

cancels : (p : PlanPhase) → is_terminal p ≡ false → transition p cancelled ≡ ok cancelled
unfolding is_terminal transition
cancels idle h = refl
cancels p h = ground arith

open_phase : (p : PlanPhase) → transition p cancelled ≡ ok cancelled → is_terminal p ≡ false
unfolding is_terminal transition
open_phase idle h = refl
open_phase p h = ground arith

-- A terminal phase is never left, and every other phase can be cancelled: a phase is terminal
-- exactly when all transitions from it raise, and not terminal exactly when the transition to
-- `cancelled` succeeds.
pub is_terminal-transition :
    (p : PlanPhase)
    → (is_terminal p ≡ true ↔ ((q : PlanPhase) → transition p q ≡ raise (invalid_transition p q)))
      × (is_terminal p ≡ false ↔ transition p cancelled ≡ ok cancelled)
is_terminal-transition p =
    ((λ h q. stuck p q h, λ every. sink p (every cancelled)), (cancels p, open_phase p))

-- The phases before a plan is ready, and those before it is first executed.
abbrev pub is_early : PlanPhase → Bool
is_early idle = true
is_early recon = true
is_early planning = true
is_early _ = false

abbrev pub is_waiting : PlanPhase → Bool
is_waiting plan_ready = true
is_waiting confirming = true
is_waiting awaiting_approval = true
is_waiting p = is_early p

transition-target : (p q r : PlanPhase) → transition p q ≡ ok r → q ≡ r
unfolding transition
transition-target p q r e = ground arith

leave_early :
    (p q : PlanPhase)
    → validate_transition p q ≡ true
    → is_early p ≡ true
    → (is_early q ≡ true) ⊎ (q ≡ plan_ready) ⊎ (q ≡ cancelled)
unfolding validate_transition
leave_early p q h e = ground arith

leave_waiting :
    (p q : PlanPhase)
    → validate_transition p q ≡ true
    → is_waiting p ≡ true
    → (is_waiting q ≡ true) ⊎ (q ≡ executing) ⊎ (q ≡ cancelled)
unfolding validate_transition
leave_waiting p q h e = ground arith

valid_of : (p q r : PlanPhase) → transition p q ≡ ok r → validate_transition p q ≡ true
unfolding transition
valid_of p q r e = ground arith

stay_cancelled : (qs : List PlanPhase) (r : PlanPhase) → follow cancelled qs ≡ ok r → cancelled ≡ r
unfolding follow transition validate_transition
stay_cancelled [] r e = ground arith
stay_cancelled (q ∷ qs) r e = ground arith

-- A condition that holds of the start and fails at the end can be left only through the phase `via`.
leaves_through :
    (inside : PlanPhase → Bool) (via : PlanPhase)
    → ((p q : PlanPhase)
        → validate_transition p q ≡ true
        → inside p ≡ true
        → (inside q ≡ true) ⊎ (q ≡ via) ⊎ (q ≡ cancelled))
    → (p : PlanPhase) (qs : List PlanPhase) (r : PlanPhase) → inside p ≡ true
    → follow p qs ≡ ok r
    → inside r ≡ false
    → r ≢ cancelled
    → Elem via qs
unfolding follow
leaves_through inside via leave p [] r h e out ne =
    let same = ok-injective e in let c : false ≡ true = cc in absurd (false≢true c)
leaves_through inside via leave p (q ∷ qs) r h e out ne = elim (Result-cases (transition p q)) [
  | inr (x, f) ↦ let c : raise x ≡ ok r = rw (f, follow) at e in cc
  | inl (q', f) ↦
      let e' : follow q' qs ≡ ok r = rw (f, follow) at e in
      let same = transition-target p q q' f in
      elim (leave p q (valid_of p q q' f) h) [
        | inl still ↦ inr (leaves_through inside via leave q' qs r (rw same at still) e' out ne)
        | inr away ↦ elim away [
          | inl reached ↦ inl (sym reached)
          | inr dead ↦
              let gone : q' ≡ cancelled = cc in
              absurd (ne (sym (stay_cancelled qs r (rw gone at e'))))
        ]
      ]
]

-- No execution without a plan: a plan that starts before planning has produced a plan, and that
-- comes to a phase beyond it other than cancelled, went through `plan_ready`.
pub follow-plan_ready :
    (p : PlanPhase) (qs : List PlanPhase) (r : PlanPhase)
    → is_early p ≡ true
    → follow p qs ≡ ok r
    → r ≢ cancelled
    → is_early r ≡ false
    → Elem plan_ready qs
follow-plan_ready p qs r h e ne out =
    leaves_through is_early plan_ready leave_early p qs r h e out ne

-- A plan that has not begun to execute, and that comes to paused, completed or partly failed, went
-- through `executing`.
pub follow-executing :
    (p : PlanPhase) (qs : List PlanPhase) (r : PlanPhase)
    → is_waiting p ≡ true
    → follow p qs ≡ ok r
    → r ≢ cancelled
    → is_waiting r ≡ false
    → Elem executing qs
follow-executing p qs r h e ne out =
    leaves_through is_waiting executing leave_waiting p qs r h e out ne
