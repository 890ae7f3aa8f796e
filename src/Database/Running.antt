-- ===== src/Database/Running.antt =====
-- What the runtime state of a cluster says (internal/server/app.go).
use self_hosted_deployer.Common.{
  [], true, false, ◌≡◌, refl, ap, inl, inr, not, trim_space, is_empty, Bool-cases, and-true, ℤ, pos,
  lt_int,
}
use self_hosted_deployer.Database.Types.{DatabaseStatus, reported, Texts}
use self_hosted_deployer.Database.Checks.{
  eq_int_sound, lt_int-irreflexive, healthy_state, is_true, is_false, empty_text,
}
use self_hosted_deployer.Database.Runtime.{
  nodes_running, phase_healthy, database_runtime_state, database_runtime_warnings,
}

module _ (texts : Texts) (db : DatabaseStatus) (desired : ℤ) where
  -- The runtime state says healthy.
  pub record Runs : Type 0 where
    pub present : db.present ≡ true
    pub wanted : lt_int (pos 0) desired ≡ true
    pub ready : db.ready_instances ≡ desired
    pub spread : nodes_running db ≡ desired
    pub led : is_empty (trim_space db.primary) ≡ false
    pub in_phase : phase_healthy texts db ≡ true

  pub database_runtime_state-Runs : database_runtime_state texts db desired ≡ "healthy" → Runs
  unfolding database_runtime_state
  database_runtime_state-Runs h =
      let (here, all) = healthy_state (not db.present) _ _ h in
      let (four, spread) = and-true _ _ all in
      let (three, phase) = and-true _ _ four in
      let (two, led) = and-true _ _ three in
      let (want, ready) = and-true _ _ two in
      record {
        present = is_true db.present here;
        wanted = want;
        ready = eq_int_sound db.ready_instances desired ready;
        spread = eq_int_sound (nodes_running db) desired (and-true _ _ spread).1;
        led = is_false (is_empty (trim_space db.primary)) led;
        in_phase = phase;
      }

  pub phase_reported : phase_healthy texts db ≡ true → is_empty (trim_space db.phase) ≡ false
  phase_reported h = elim (Bool-cases (is_empty (trim_space db.phase))) [
    | inr e ↦ e
    | inl e ↦ absurd (no_phase (empty_text (trim_space db.phase) e))
  ]
    where
      no_phase : trim_space db.phase ≡ "" → ⊥
      no_phase e =
          let fold = texts.equal_fold_empty "Cluster in healthy state" refl in
          let same = ap (λ s. texts.equal_fold s "Cluster in healthy state") e in cc

  pub database_runtime_warnings-quiet : Runs → database_runtime_warnings texts db desired ≡ []
  unfolding database_runtime_warnings reported
  database_runtime_warnings-quiet r =
      rw
        (
          r.present,
          r.ready,
          r.spread,
          r.led,
          r.in_phase,
          phase_reported r.in_phase,
          r.wanted,
          lt_int-irreflexive desired,
        )
        refl
