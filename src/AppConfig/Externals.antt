-- ===== src/AppConfig/Externals.antt =====
-- What the validation takes from the Kubernetes and network libraries (internal/appconfig).
use self_hosted_deployer.Common.{String, Bool, Option}

-- `resource.Quantity` with `ParseQuantity`, `Sign() > 0` and `Cmp < 0`, and the minimum that
-- postgres.go parses once; the tests of k8s validation; `net.ParseCIDR` succeeds.
pub record Externals : Type 1 where
  pub Quantity : Type 0
  pub parse_quantity : String → Option Quantity
  pub positive : Quantity → Bool
  pub less : Quantity → Quantity → Bool
  pub minimum_postgres_storage : Quantity
  pub is_dns1123_subdomain : String → Bool
  pub is_dns1035_label : String → Bool
  pub is_cidr : String → Bool
