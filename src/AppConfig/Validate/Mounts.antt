-- ===== src/AppConfig/Validate/Mounts.antt =====
-- What validation guarantees of the retained mounts of an application (internal/appconfig).
use self_hosted_deployer.Common.{
  ◌≤◌, String, false, some, List, [], ◌∷◌, ◌==◌, eq_iff, ◌≡◌, ◌≢◌, arith, All, length, any, ltb,
  pos, ok, refuse, refuse-ok, >>-ok,
}
use self_hosted_deployer.AppConfig.Types.{StorageMount, StorageConfig, Config}
use self_hosted_deployer.AppConfig.Externals.{Externals}
use self_hosted_deployer.AppConfig.Paths.{mount_paths_overlap}
use self_hosted_deployer.AppConfig.Paths.Overlap.{LiesUnder, overlap_iff}
use self_hosted_deployer.AppConfig.Validate.Storage.{
  mounts, lacks_node_id, validate_storage_mount, validate_mounts, validate_storage_mode,
  validate_storage_with, validate_storage,
}

-- Two mounts of different claims under which no file lies at once.
pub record Apart (m n : StorageMount) : Type 0 where
  pub claims : m.existing_claim ≢ n.existing_claim
  pub files : (file : String) → LiesUnder file m.mount_path → LiesUnder file n.mount_path → ⊥

abbrev pub PairwiseApart : List StorageMount → Type 0
PairwiseApart [] = Unit
PairwiseApart (m ∷ ms) = All (Apart m) ms × PairwiseApart ms

-- What the rest of a configuration with storage has to be.
pub record IsRetained (s : StorageConfig) (c : Config) : Type 0 where
  pub few : length (mounts s) ≤ 8
  pub apart : PairwiseApart (mounts s)
  pub mode : c.state.mode ≡ "stateful"
  pub pinned : c.resilience.mode ≡ "pinned"
  pub single : c.deploy.replicas ≡ pos 1
  pub strategy : c.deploy.strategy ≡ "recreate"
  pub node : lacks_node_id c.placement.prefer ≡ false

mode_facts :
    (c : Config)
    → validate_storage_mode c ≡ ok tt
    → (c.state.mode ≡ "stateful")
      × (c.resilience.mode ≡ "pinned")
      × (c.deploy.replicas ≡ pos 1)
      × (c.deploy.strategy ≡ "recreate")
      × (lacks_node_id c.placement.prefer ≡ false)
unfolding validate_storage_mode
mode_facts c h = (
  (eq_iff _ _).0 (ground arith),
  (eq_iff _ _).0 (ground arith),
  ground arith,
  (eq_iff _ _).0 (ground arith),
  ground arith,
)

few_mounts :
    (s : StorageConfig) → ltb 7 (length s.additional_mounts) ≡ false → length (mounts s) ≤ 8
unfolding mounts
few_mounts s h = ground arith

module _ (ext : Externals) where
  -- What one pass of the loop has checked.
  mounts_step :
      (seen previous : List String) (m : StorageMount) (ms : List StorageMount)
      → validate_mounts ext seen previous (m ∷ ms) ≡ ok tt
      → (any (λ claim. claim == m.existing_claim) seen ≡ false)
        × (any (mount_paths_overlap m.mount_path) previous ≡ false)
        × (validate_mounts ext (m.existing_claim ∷ seen) (m.mount_path ∷ previous) ms ≡ ok tt)
  unfolding validate_mounts
  mounts_step seen previous m ms h =
      let (_, h1) = >>-ok (validate_storage_mount ext m) _ h in
      let (claim, h2) = >>-ok (refuse (any (λ claim. claim == m.existing_claim) seen) _) _ h1 in
      let (path, h3) = >>-ok (refuse (any (mount_paths_overlap m.mount_path) previous) _) _ h2 in
      (refuse-ok _ _ claim, refuse-ok _ _ path, h3)

  -- A mount whose claim and path the loop has seen is apart from the mounts that follow.
  later-Apart :
      (seen previous : List String) (m : StorageMount) (ms : List StorageMount)
      → ((claim : String)
          → any (λ c. c == claim) seen ≡ false
          → (m.existing_claim == claim) ≡ false)
      → ((path : String)
          → any (mount_paths_overlap path) previous ≡ false
          → mount_paths_overlap path m.mount_path ≡ false)
      → validate_mounts ext seen previous ms ≡ ok tt
      → All (Apart m) ms
  later-Apart seen previous m [] hc hp h = tt
  later-Apart seen previous m (n ∷ ms) hc hp h =
      let (claim, path, rest) = mounts_step seen previous n ms h in
      (
        record {
          claims =
              λ e. cc (hc n.existing_claim claim, (eq_iff m.existing_claim n.existing_claim).1 e);
          files =
              λ file p q. (overlap_iff n.mount_path m.mount_path).0 (hp n.mount_path path) file q p;
        },
        later-Apart (n.existing_claim ∷ seen) (n.mount_path ∷ previous) m ms
            (λ c k. hc c (ground arith)) (λ p k. hp p (ground arith)) rest,
      )

  mounts-PairwiseApart :
      (seen previous : List String) (ms : List StorageMount)
      → validate_mounts ext seen previous ms ≡ ok tt
      → PairwiseApart ms
  mounts-PairwiseApart seen previous [] h = tt
  mounts-PairwiseApart seen previous (m ∷ ms) h =
      let (claim, path, rest) = mounts_step seen previous m ms h in
      (
        later-Apart (m.existing_claim ∷ seen) (m.mount_path ∷ previous) m ms (λ c k. ground arith)
            (λ p k. ground arith) rest,
        mounts-PairwiseApart (m.existing_claim ∷ seen) (m.mount_path ∷ previous) ms rest,
      )

  -- An accepted configuration with retained storage has at most eight mounts of different claims,
  -- no file lies under two of them, and the application is stateful, pinned to a node and runs as
  -- one replica that is recreated.
  pub validate_storage-IsRetained :
      (c : Config) (s : StorageConfig)
      → c.storage ≡ some s
      → validate_storage ext c ≡ ok tt
      → IsRetained s c
  unfolding validate_storage validate_storage_with
  validate_storage-IsRetained c s e h =
      let h' = rw e at h in
      let (few, h1) = >>-ok (refuse (ltb 7 (length s.additional_mounts)) _) _ h' in
      let (loop, mode) = >>-ok (validate_mounts ext [] [] (mounts s)) _ h1 in
      let (stateful, pinned, single, strategy, node) = mode_facts c mode in
      record {
        few = few_mounts s (refuse-ok _ _ few);
        apart = mounts-PairwiseApart [] [] (mounts s) loop;
        mode = stateful;
        pinned = pinned;
        single = single;
        strategy = strategy;
        node = node;
      }
