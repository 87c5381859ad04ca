-- ===== src/Tunnel/Options.antt =====
-- Options of pkg/tunnel/options.go: Validate and Complete.
use fleetboard.Prelude.{
  ◌≡◌, Bool, not, ◌&&◌, ◌||◌, List, [], ◌∷◌, ◌++◌, if◌then◌else◌, is_nil, arith,
}
use fleetboard.Prelude.Text.{Text, codes}

-- Of the options what Validate and Complete read.
pub record Options : Type 0 where
  pub hub_secret_namespace : Text
  pub hub_secret_name : Text
  pub share_namespace : Text
  pub as_hub : Bool
  pub as_cluster : Bool
  pub cidr : Text
  pub hub_url : Text

-- The flags that Validate asks for.
pub data MissingFlag : Type 0 where
  cidr_flag hub_url_flag shared_namespace_flag secret_namespace_flag secret_name_flag : MissingFlag

abbrev require : Bool → MissingFlag → List MissingFlag
require missing flag = if missing then flag ∷ [] else []

-- Validate
unfoldable pub validate : Options → List MissingFlag
validate o =
    require (o.as_hub && is_nil o.cidr) cidr_flag
    ++ require (not o.as_hub && is_nil o.hub_url) hub_url_flag
    ++ require (is_nil o.share_namespace) shared_namespace_flag
    ++ require (o.as_cluster && is_nil o.hub_secret_namespace) secret_namespace_flag
    ++ require (o.as_cluster && is_nil o.hub_secret_name) secret_name_flag

-- Complete
unfoldable pub complete : Options → Options
complete o = if o.as_hub && is_nil o.cidr then record o { cidr = codes "20.112.0.0/12" } else o

-- Options that were completed are valid exactly when there is a shared namespace, a hub url unless
-- they are those of a hub, and a namespace and a name of the hub's secret if they are those of a
-- cluster.
pub validate-complete :
    (o : Options)
    → is_nil (validate (complete o)) ≡ (
        (o.as_hub || not (is_nil o.hub_url))
        && not (is_nil o.share_namespace)
        && (not o.as_cluster
            || (not (is_nil o.hub_secret_namespace) && not (is_nil o.hub_secret_name))))
unfolding validate complete
validate-complete o = ground arith
