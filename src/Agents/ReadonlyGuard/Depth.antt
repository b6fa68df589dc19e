-- ===== src/Agents/ReadonlyGuard/Depth.antt =====
-- A command in another is shorter, so the bound on the recursion is enough.
use neuralhub.Base.{
  ℕ, zero, suc, ◌+◌, ◌-◌, ◌≤◌, ◌<◌, ◌≡◌, refl, ap, inl, inr, Bool, true, not, ◌&&◌, ◌||◌, List, [],
  ◌∷◌, ◌++◌, arith, ◌==◌, Bool-cases, length, take, drop, Elem, any, length-append, Text, codes,
  Result, Elem-append_cases, length-take, length-drop, and-true, lstrip, rstrip, strip, startswith,
  nonempty, split_at,
}
use neuralhub.Agents.ReadonlyGuard.{
  skip_balanced, dollar_commands, odd_parts, command_substitutions, split_all_segments,
  segment_blocked, redirects, blocked_within, is_readonly_blocked,
}

length-lstrip : (t : Text) → length (lstrip t) ≤ length t
unfolding lstrip
length-lstrip [] = omega arith
length-lstrip (c ∷ cs) = let rest = length-lstrip cs in ground arith

length-rstrip : (t : Text) → length (rstrip t) ≤ length t
unfolding rstrip
length-rstrip [] = omega arith
length-rstrip (c ∷ cs) = let rest = length-rstrip cs in ground arith

pub length-strip : (t : Text) → length (strip t) ≤ length t
length-strip t = omega (arith, length-rstrip (lstrip t), length-lstrip t)

taken_shorter :
    (n : ℕ) (c : ℕ) (cs : Text)
    → startswith cs (codes "(") ≡ true
    → length (take n (drop 1 cs)) < length (c ∷ cs)
unfolding startswith
taken_shorter n c [] h = cc
taken_shorter n c (d ∷ cs) h = let e = length-take n cs in omega arith

dollar_shorter : (bound : ℕ) (t s : Text) → Elem s (dollar_commands bound t) → length s < length t
unfolding dollar_commands
dollar_shorter zero t s m = elim m [ ]
dollar_shorter (suc bound) [] s m = elim m [ ]
dollar_shorter (suc bound) (c ∷ cs) s m =
    let n = skip_balanced 0 cs in
    let k = skip_balanced 0 (drop 1 cs) + 1 in
    elim (Bool-cases (c == 36 && startswith cs (codes "("))) [
      | inr e ↦ let rest = dollar_shorter bound cs s (rw (dollar_commands, e) at m) in omega arith
      | inl e ↦ elim (Bool-cases (startswith (drop 1 cs) (codes "("))) [
        | inl f ↦
            let rest = dollar_shorter bound (drop k cs) s (rw (dollar_commands, e, f) at m) in
            omega (arith, length-drop k cs)
        | inr f ↦ elim (rw (dollar_commands, e, f) at m) [
          | inl eq ↦
              rw eq (
                taken_shorter (n - 2) c cs ((and-true (c == 36) (startswith cs (codes "("))).0 e).1)
          | inr m' ↦
              let rest = dollar_shorter bound (drop n cs) s m' in omega (arith, length-drop n cs)
        ]
      ]
    ]

part_length :
    (cuts : ℕ → Bool) (t part s : Text)
    → Elem s (split_at cuts part t)
    → length s ≤ length part + length t
unfolding split_at
part_length cuts [] part s (inl e) = rw e (omega arith)
part_length cuts [] part s (inr m) = elim m [ ]
part_length cuts (c ∷ cs) part s m = elim (Bool-cases (cuts c)) [
  | inl e ↦ elim (rw (split_at, e) at m) [
    | inl eq ↦ rw eq (omega arith)
    | inr m' ↦ let rest = part_length cuts cs [] s m' in omega arith
  ]
  | inr e ↦
      let rest = part_length cuts cs (part ++ c ∷ []) s (rw (split_at, e) at m) in
      omega (arith, length-append part (c ∷ []))
]

odd_Elem : (p : Text) (xs : List Text) (s : Text) → Elem s (odd_parts (p ∷ xs)) → Elem s xs
odd_Elem p [] s m = elim m [ ]
odd_Elem p (x ∷ []) s (inl e) = inl e
odd_Elem p (x ∷ []) s (inr m) = elim m [ ]
odd_Elem p (x ∷ y ∷ ys) s (inl e) = inl e
odd_Elem p (x ∷ y ∷ ys) s (inr m) = inr (inr (odd_Elem y ys s m))

odd_shorter :
    (cuts : ℕ → Bool) (t part s : Text)
    → Elem s (odd_parts (split_at cuts part t))
    → length s < length part + length t
unfolding split_at
odd_shorter cuts [] part s m = elim m [ ]
odd_shorter cuts (c ∷ cs) part s m = elim (Bool-cases (cuts c)) [
  | inl e ↦
      let rest = odd_Elem part (split_at cuts [] cs) s (rw (split_at, e) at m) in
      let short = part_length cuts cs [] s rest in omega arith
  | inr e ↦
      let rest = odd_shorter cuts cs (part ++ c ∷ []) s (rw (split_at, e) at m) in
      omega (arith, length-append part (c ∷ []))
]

-- A command that is substituted in another is shorter than it.
pub substitution_shorter : (t s : Text) → Elem s (command_substitutions t) → length s < length t
unfolding command_substitutions
substitution_shorter t s m =
    elim (Elem-append_cases s (dollar_commands (length t) t)
      (odd_parts (split_at (λ c. c == 96) [] t)) m) [
        | inl d ↦ dollar_shorter (length t) t s d
        | inr o ↦ let short = odd_shorter (λ c. c == 96) t [] s o in omega arith
      ]

any_same :
    (p q : Text → Bool) (xs : List Text)
    → ((x : Text) → Elem x xs → p x ≡ q x)
    → any p xs ≡ any q xs
unfolding any
any_same p q [] h = refl
any_same p q (x ∷ xs) h =
    let here = h x (inl refl) in let rest = any_same p q xs (λ y m. h y (inr m)) in ground arith

module _ (shlex_split : Text → Result (List Text)) (lower : Text → Text) where
  within_enough :
      (n m : ℕ) (t : Text)
      → length t < n
      → length t < m
      → blocked_within shlex_split lower n t ≡ blocked_within shlex_split lower m t
  unfolding blocked_within
  within_enough zero m t a b = absurd (let c : length t < 0 = a in omega arith)
  within_enough (suc n) zero t a b = absurd (let c : length t < 0 = b in omega arith)
  within_enough (suc n) (suc m) t a b =
      let normalized = strip t in
      let same =
        any_same (blocked_within shlex_split lower n) (blocked_within shlex_split lower m)
          (command_substitutions normalized)
          (λ s e.
            within_enough n m s (omega (arith, substitution_shorter normalized s e, length-strip t))
              (omega (arith, substitution_shorter normalized s e, length-strip t))) in
      ap
        (λ b.
          not (nonempty normalized)
          || redirects 0 normalized
          || b
          || any (segment_blocked shlex_split lower) (split_all_segments normalized))
        same

  -- Every bound above the length of a command gives the same answer, which is the one of the guard.
  pub guard_depth :
      (n : ℕ) (command : Text)
      → length command < n
      → blocked_within shlex_split lower n command ≡ is_readonly_blocked shlex_split lower command
  unfolding is_readonly_blocked
  guard_depth n command h = within_enough n (length command + 1) command h (omega arith)
