-- ===== src/Role/Settings.antt =====
-- internal/role: role.go and config.go, with the settings of the daemon and of the gateway.
use ta2mongo.Prelude.{
  ◌≡◌, refl, String, ◌||◌, Option, none, some, Result, ok, err, ◌==◌, arith, Bool-cases, inl, inr,
  if◌then◌else◌,
}
use ta2mongo.Role.Cli as Cli
use ta2mongo.Role.Cli.{CliError}

-- The daemon has no settings of its own, the gateway its address.
pub record Config : Type 0 where
  pub mode : String
  pub gateway_addr : Option String
  pub cli : Option Cli.Config

pub data RoleError (Err : Type 0) : Type 0 where
  bad_mode : String → RoleError Err
  not_runnable : String → RoleError Err
  bad_cli : CliError Err → RoleError Err

pub data Runnable : Type 0 where
  daemon gateway cli : Runnable

abbrev pub or_zero_cli : Option Cli.Config → Cli.Config
or_zero_cli none = record { function = ""; config_mode = "" }
or_zero_cli (some c) = c

abbrev pub or_empty : Option String → String
or_empty none = ""
or_empty (some a) = a

abbrev pub default_addr : String → String
default_addr addr = if addr == "" then ":8080" else addr

unfoldable pub apply_defaults : Config → Config
unfolding Cli.apply_defaults
apply_defaults c = record {
  mode = if c.mode == "" then "daemon" else c.mode;
  gateway_addr = some (default_addr (or_empty c.gateway_addr));
  cli = some (Cli.apply_defaults (or_zero_cli c.cli));
}

module _ {Err : Type 0} where
  abbrev pub checked : Result (CliError Err) (Unit {0}) → Result (RoleError Err) (Unit {0})
  checked (ok _) = ok tt
  checked (err e) = err (bad_cli e)

  abbrev pub validate_cli : Option Cli.Config → Result (RoleError Err) (Unit {0})
  validate_cli none = ok tt
  validate_cli (some c) = checked (Cli.validate c)

  unfoldable pub validate : Config → Result (RoleError Err) (Unit {0})
  unfolding Cli.validate
  validate c =
      if c.mode == "daemon" || c.mode == "gateway" || c.mode == "cli"
      then validate_cli c.cli
      else err (bad_mode c.mode)

  -- `Get`
  unfoldable pub get_role : String → Result (RoleError Err) Runnable
  get_role mode =
      if mode == "daemon"
      then ok daemon
      else if mode == "gateway"
      then ok gateway
      else if mode == "cli"
      then ok cli
      else err (not_runnable mode)

  -- Settings that are valid name a role that runs.
  validate-get_role : (c : Config) → validate c ≡ ok tt → (r : Runnable) × (get_role c.mode ≡ ok r)
  unfolding validate get_role
  validate-get_role c h = elim (Bool-cases (c.mode == "daemon")) [
    | inl d ↦ (daemon, rw (get_role, d) refl)
    | inr d ↦ elim (Bool-cases (c.mode == "gateway")) [
      | inl g ↦ (gateway, rw (get_role, d, g) refl)
      | inr g ↦ elim (Bool-cases (c.mode == "cli")) [
        | inl k ↦ (cli, rw (get_role, d, g, k) refl)
        | inr k ↦ absurd (ground (arith, h, d, g, k))
      ]
    ]
  ]
