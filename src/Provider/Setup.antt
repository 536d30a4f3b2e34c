-- ===== src/Provider/Setup.antt =====
-- NewProviderConfig, NewProvider and loadConfig of pkg/provider/provider.go, with the defaults of
-- pkg/provider/config.go.
pub mod Table
use feather_multiruntimenetw.Common.{
  ℕ, List, [], ◌∷◌, Text, text_eq, codes, M, Ret, ok, err, message, ◌>>=◌, pure, or_return, ◌==◌,
  ◌++◌, if◌then◌else◌,
}
use feather_multiruntimenetw.Common.Dict.{Dict, insert}
use feather_multiruntimenetw.Provider.Host.{Provider}
use feather_multiruntimenetw.Provider.Instances.{backend_containerd}

-- `Config`, of which `Default` and `Enabled` are read.
pub record Config : Type 0 where
  pub default : Text
  pub enabled : List Text

-- The constructors of the backends, os.ReadFile and the decoding of JSON.
pub record Setup (W : Type 0) : Type 0 where
  pub new_containerd_backend : M W (Ret ℕ)
  pub new_osv_backend : M W (Ret ℕ)
  pub read_file : Text → M W (Ret Text)
  pub unmarshal : Text → Ret Config

-- `BackendOsv`
abbrev pub backend_osv : Text
backend_osv = codes "osv"

-- `defaultConfig`
abbrev pub default_config : Config
default_config = record { default = backend_containerd; enabled = backend_containerd ∷ [] }

abbrev default_or : Text → Text
default_or [] = default_config.default
default_or (c ∷ name) = c ∷ name

abbrev pub enabled_or : List Text → List Text
enabled_or [] = default_config.enabled
enabled_or (e ∷ es) = e ∷ es

unfoldable pub with_defaults : Config → Config
with_defaults config = record {
  default = default_or config.default;
  enabled = enabled_or config.enabled;
}

module _ {W : Type 0} (h : Setup W) where
  -- The switch in the loop over the backends that are enabled.
  unfoldable pub new_backend : Text → M W (Ret ℕ)
  new_backend e =
      if e == backend_containerd
      then h.new_containerd_backend
      else if e == backend_osv
      then h.new_osv_backend
      else pure (err (message (codes "backend " ++ e ++ codes " is not supported")))

  -- The loop.
  unfoldable pub set_up : Dict Text ℕ → List Text → M W (Ret (Dict Text ℕ))
  set_up backends [] = pure (ok backends)
  set_up backends (e ∷ es) =
      new_backend e >>= λ r. or_return r λ backend. set_up (insert e backend backends) es

  -- `NewProviderConfig`; the state of what the provider calls is kept beside its tables.
  unfoldable pub new_provider_config : Config → M W (Ret (W → Provider W))
  new_provider_config config = do
    r ← set_up [] (with_defaults config).enabled
    or_return r λ backends.
        pure (ok (λ w. record { backends = backends; pods = []; instances = []; world = w }))

  -- `loadConfig`
  unfoldable pub load_config : Text → M W (Ret Config)
  load_config path = do
    content ← h.read_file path
    or_return content λ text. or_return (h.unmarshal text) λ cfg. pure (ok (with_defaults cfg))

  -- `NewProvider`
  unfoldable pub new_provider : Text → M W (Ret (W → Provider W))
  new_provider path = do cfg ← load_config path; or_return cfg λ c. new_provider_config c
