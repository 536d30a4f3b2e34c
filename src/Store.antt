-- ===== src/Store.antt =====
-- The registry of providers: cmd/fledge/internal/provider/store.go. A function is a number, and
-- `none` if it is nil; the calls are taken one after the other, as the mutex has it.
use feather_multiruntimenetw.Common.{
  ℕ, List, [], ◌∷◌, Bool, Option, none, some, Text, text_eq, codes, Ret, ok, err, message,
}
use feather_multiruntimenetw.Common.Dict.{Dict, lookup, insert, contains}

-- `Store`
abbrev pub Store : Type 0
Store = Dict Text ℕ

-- `NewStore`
abbrev pub new_store : Store
new_store = []

-- `Register`
unfoldable pub register : Text → Option ℕ → Store → Ret (Unit {0}) × Store
register name none s = (err (message (codes "provided init function cannot not be nil")), s)
register name (some f) s = (ok tt, insert name f s)

-- `Get`
unfoldable pub get : Text → Store → Option ℕ
get name s = lookup name s

-- `List`
unfoldable pub list : Store → List Text
list [] = []
list ((name, f) ∷ s) = name ∷ list s

-- `Exists`
unfoldable pub exists : Text → Store → Bool
exists name s = contains name s
