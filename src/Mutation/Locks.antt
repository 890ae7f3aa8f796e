-- ===== src/Mutation/Locks.antt =====
-- `appMutationLocks` of internal/server/app_mutation.go: the map, the locks that it points to, and
-- the sections that `mu` and the channel make atomic.
use self_hosted_deployer.Common.{
  ℕ, ◌+◌, ◌-◌, String, Bool, false, Option, none, some, ◌==◌, nat_eq, if◌then◌else◌,
}

-- appMutationLock: whether the channel of one place is full, and the users.
pub record MutationLock : Type 0 where
  pub gate : Bool
  pub users : ℕ

-- appMutationLocks, with the memory that its pointers point to; `next` is the first free place.
pub record MutationLocks : Type 0 where
  pub apps : String → Option ℕ
  pub memory : ℕ → MutationLock
  pub next : ℕ

abbrev pub set_app : (String → Option ℕ) → String → Option ℕ → String → Option ℕ
set_app apps app value other = if app == other then value else apps other

abbrev pub set_lock : (ℕ → MutationLock) → ℕ → MutationLock → ℕ → MutationLock
set_lock memory place value other = if nat_eq place other then value else memory other

abbrev pub add_user : MutationLock → MutationLock
add_user lock = record { gate = lock.gate; users = lock.users + 1 }

abbrev pub enter_at : MutationLocks → String → Option ℕ → ℕ × MutationLocks
enter_at s app none = (
  s.next,
  record {
    apps = set_app s.apps app (some s.next);
    memory = set_lock s.memory s.next (add_user (record { gate = false; users = 0 }));
    next = s.next + 1;
  },
)
enter_at s app (some place) = (
  place,
  record {
    apps = s.apps;
    memory = set_lock s.memory place (add_user (s.memory place));
    next = s.next;
  },
)

-- The first section of `acquire` under `mu`: the lock of the application and one user more.
unfoldable pub enter_map : MutationLocks → String → ℕ × MutationLocks
enter_map s app = enter_at s app (s.apps app)

-- `forget`: one user less, and an entry without users leaves the map.
unfoldable pub forget : MutationLocks → String → ℕ → MutationLocks
forget s app place =
    let users = (s.memory place).users - 1 in
    record {
      apps = if nat_eq users 0 then set_app s.apps app none else s.apps;
      memory = set_lock s.memory place (record { gate = (s.memory place).gate; users = users });
      next = s.next;
    }

-- A send into the channel, or a receive from it.
unfoldable pub set_gate : MutationLocks → ℕ → Bool → MutationLocks
set_gate s place full = record {
  apps = s.apps;
  memory = set_lock s.memory place (record { gate = full; users = (s.memory place).users });
  next = s.next;
}

abbrev pub empty_locks : MutationLocks
empty_locks = record {
  apps = λ app. none;
  memory = λ place. record { gate = false; users = 0 };
  next = 0;
}
