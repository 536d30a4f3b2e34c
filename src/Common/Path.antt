-- ===== src/Common/Path.antt =====
-- Join, Clean and Base of Go's packages path and path/filepath, on Unix.
use feather_multiruntimenetw.Common.Tests.{◌==◌, nat_eq, if◌then◌else◌}
use feather_multiruntimenetw.Common.Texts.{Text, text_eq, codes}
use feather_multiruntimenetw.Common.Split.{split, join}
use mathlib.Core.Bool.{Bool, false, ◌||◌}
use mathlib.Core.List.{List, [], ◌∷◌}

abbrev is_rooted : Text → Bool
is_rooted [] = false
is_rooted (c ∷ s) = c == b'/'

-- The parts that stand so far, the last one first, with the one above them taken away.
abbrev parent : Bool → List Text → List Text
parent rooted [] = if rooted then [] else codes ".." ∷ []
parent rooted (last ∷ before) = if last == codes ".." then codes ".." ∷ last ∷ before else before

abbrev step_into : Bool → List Text → Text → List Text
step_into rooted before part =
    if part == [] || part == codes "."
    then before
    else if part == codes ".."
    then parent rooted before
    else part ∷ before

abbrev walk : Bool → List Text → List Text → List Text
walk rooted before [] = before
walk rooted before (part ∷ parts) = walk rooted (step_into rooted before part) parts

abbrev in_order : List Text → List Text → List Text
in_order after [] = after
in_order after (part ∷ before) = in_order (part ∷ after) before

abbrev or_dot : Text → Text
or_dot [] = codes "."
or_dot (c ∷ s) = c ∷ s

-- `Clean`
unfoldable pub clean_path : Text → Text
clean_path s =
    let parts = join b'/' (in_order [] (walk (is_rooted s) [] (split b'/' s))) in
    if is_rooted s then b'/' ∷ parts else or_dot parts

abbrev without_empty : List Text → List Text
without_empty [] = []
without_empty ([] ∷ parts) = without_empty parts
without_empty ((c ∷ s) ∷ parts) = (c ∷ s) ∷ without_empty parts

-- `Join`
unfoldable pub join_path : List Text → Text
join_path parts = elim (without_empty parts) [
  | [] ↦ []
  | part ∷ others ↦ clean_path (join b'/' (part ∷ others))
]

-- The last part that is not empty.
abbrev last_part : Text → List Text → Text
last_part found [] = found
last_part found ([] ∷ parts) = last_part found parts
last_part found ((c ∷ s) ∷ parts) = last_part (c ∷ s) parts

-- `Base`
unfoldable pub base_path : Text → Text
base_path [] = codes "."
base_path (c ∷ s) = last_part (codes "/") (split b'/' (c ∷ s))
