-- ===== src/AppConfig/Validate/Hosting.antt =====
-- `HostingConfig.Validate` and `parseResourceQuantities` (internal/appconfig/hosting.go).
use self_hosted_deployer.Common.{
  String, Bool, Option, none, some, List, [], ◌∷◌, ◌==◌, not, ◌||◌, is_empty, trim_space, ℤ, pos,
  lt_int, Result, ok, err, refuse, ◌>>=◌, ◌>>◌, if◌then◌else◌,
}
use self_hosted_deployer.AppConfig.Types.{ResourceQuantities, HostingEgressRule, HostingConfig}
use self_hosted_deployer.AppConfig.Errors.{
  ConfigError, hosting_version, max_replicas_range, replicas_exceed, quantity_required,
  quantity_invalid, quantity_positive, limit_below_request, egress_cidr, egress_ports,
  egress_port_range,
}
use self_hosted_deployer.AppConfig.Externals.{Externals}

-- `len(ports) == 0`
abbrev is_nil : List ℤ → Bool
is_nil [] = Bool.true
is_nil (_ ∷ _) = Bool.false

unfoldable pub validate_egress_ports : List ℤ → Result ConfigError (Unit {0})
validate_egress_ports [] = ok tt
validate_egress_ports (port ∷ rest) = do
  refuse (lt_int port (pos 1) || lt_int (pos 65535) port) egress_port_range
  validate_egress_ports rest

module _ (ext : Externals) where
  open ext use {Quantity, parse_quantity, positive, less, is_cidr}

  -- One pass of the loop of parseResourceQuantities.
  unfoldable pub parse_resource_quantity : String → Result ConfigError Quantity
  parse_resource_quantity value =
      if is_empty (trim_space value) then err quantity_required else elim (parse_quantity value) [
        | none ↦ err quantity_invalid
        | some parsed ↦ if positive parsed then ok parsed else err quantity_positive
      ]

  unfoldable pub parse_resource_quantities :
      ResourceQuantities → Result ConfigError (Quantity × Quantity × Quantity)
  parse_resource_quantities values = do
    cpu ← parse_resource_quantity values.cpu
    memory ← parse_resource_quantity values.memory
    ephemeral_storage ← parse_resource_quantity values.ephemeral_storage
    ok (cpu, memory, ephemeral_storage)

  unfoldable pub validate_egress : List HostingEgressRule → Result ConfigError (Unit {0})
  unfolding validate_egress_ports
  validate_egress [] = ok tt
  validate_egress (rule ∷ rest) = do
    refuse (not (is_cidr (trim_space rule.cidr))) egress_cidr
    refuse (is_nil rule.ports) egress_ports
    validate_egress_ports rule.ports
    validate_egress rest

  -- The comparison of the limits with the requests, in the order of the loop.
  unfoldable pub validate_limits :
      Quantity × Quantity × Quantity
      → Quantity × Quantity × Quantity
      → Result ConfigError (Unit {0})
  validate_limits (cpu, memory, storage) (cpu_limit, memory_limit, storage_limit) = do
    refuse (less cpu_limit cpu) limit_below_request
    refuse (less memory_limit memory) limit_below_request
    refuse (less storage_limit storage) limit_below_request

  unfoldable pub validate_hosting : Option HostingConfig → ℤ → Result ConfigError (Unit {0})
  validate_hosting none replicas = ok tt
  validate_hosting (some c) replicas = do
    refuse (not (c.version == "v1")) hosting_version
    refuse (lt_int c.max_replicas (pos 1) || lt_int (pos 1000) c.max_replicas) max_replicas_range
    refuse (lt_int c.max_replicas replicas) replicas_exceed
    requests ← parse_resource_quantities c.resources.requests
    limits ← parse_resource_quantities c.resources.limits
    validate_limits requests limits
    validate_egress c.network.egress
