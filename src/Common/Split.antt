-- ===== src/Common/Split.antt =====
-- strings.Split by one byte, strings.Join, and strings.Trim of one byte, from Go's package strings.
use Prim.Native.Nat.{ℕ}
use mathlib.Core.Path.{◌≡◌, refl, sym, ap, ◌∙◌}
use mathlib.Core.Bool.{false}
use mathlib.Core.List.{List, [], ◌∷◌, ◌++◌}
use feather_multiruntimenetw.Common.Tests.{◌==◌, nat_eq, if◌then◌else◌, beq_refl}
use feather_multiruntimenetw.Common.Lists.{All}
use feather_multiruntimenetw.Common.Texts.{Text}

-- The parts with one byte more in the first.
abbrev onto_first : ℕ → List Text → List Text
onto_first c [] = (c ∷ []) ∷ []
onto_first c (part ∷ parts) = (c ∷ part) ∷ parts

unfoldable pub split : ℕ → Text → List Text
split sep [] = [] ∷ []
split sep (c ∷ s) = let rest = split sep s in if c == sep then [] ∷ rest else onto_first c rest

unfoldable pub join : ℕ → List Text → Text
join sep [] = []
join sep (part ∷ []) = part
join sep (part ∷ next ∷ parts) = part ++ sep ∷ join sep (next ∷ parts)

abbrev trim_left : ℕ → Text → Text
trim_left c [] = []
trim_left c (x ∷ s) = if x == c then trim_left c s else x ∷ s

abbrev trim_right : ℕ → Text → Text
trim_right c [] = []
trim_right c (x ∷ s) = elim (trim_right c s) [
  | [] ↦ if x == c then [] else x ∷ []
  | y ∷ r ↦ x ∷ y ∷ r
]

unfoldable pub trim : ℕ → Text → Text
trim c s = trim_right c (trim_left c s)

-- The text does not hold the byte.
abbrev pub Lacks : ℕ → Text → Type 0
Lacks sep s = All (λ c. (c == sep) ≡ false) s

split-plain : (sep : ℕ) (s : Text) → Lacks sep s → split sep s ≡ s ∷ []
unfolding split
split-plain sep [] h = refl
split-plain sep (c ∷ s) h = rw (h.0, split-plain sep s h.1) refl

split-append :
    (sep : ℕ) (s rest : Text) → Lacks sep s → split sep (s ++ sep ∷ rest) ≡ s ∷ split sep rest
unfolding split
split-append sep [] rest h = rw (beq_refl sep) refl
split-append sep (c ∷ s) rest h = rw (h.0, split-append sep s rest h.1) refl

-- Splitting what was joined from parts without the separator gives the parts back.
pub split-join :
    (sep : ℕ) (part : Text) (parts : List Text)
    → Lacks sep part
    → All (Lacks sep) parts
    → split sep (join sep (part ∷ parts)) ≡ part ∷ parts
unfolding join
split-join sep part [] h hs = split-plain sep part h
split-join sep part (next ∷ parts) h hs =
    split-append sep part (join sep (next ∷ parts)) h
    ∙ ap (λ r. part ∷ r) (split-join sep next parts hs.0 hs.1)

-- Parts without the separator are determined by what they are joined to.
pub join-injective :
    (sep : ℕ) (p q : Text) (ps qs : List Text)
    → Lacks sep p
    → All (Lacks sep) ps
    → Lacks sep q
    → All (Lacks sep) qs
    → join sep (p ∷ ps) ≡ join sep (q ∷ qs)
    → ◌≡◌ {A = List Text} (p ∷ ps) (q ∷ qs)
join-injective sep p q ps qs hp hps hq hqs e =
    sym (split-join sep p ps hp hps) ∙ ap (split sep) e ∙ split-join sep q qs hq hqs
