-- ===== src/Utilities/Sharing.antt =====
-- gateway-runtime/src/utilities.rs, `SyncService`: a service behind a mutex. A call is given what the
-- inner service does: its answer, or none where it panics, and its state afterwards. A mutex whose
-- guard is dropped in a panic is poisoned.
use grpc_gateway_rust.Prelude.{Bool, true, false, Option, none, some, if◌then◌else◌}

pub record SyncService (S : Type 0) : Type 0 where
  pub inner : S
  pub poisoned : Bool

module _ {S : Type 0} where
  -- `SyncService::new`, and `From`
  abbrev pub new_sync : S → SyncService S
  new_sync service = record { inner = service; poisoned = false }

  -- `self.0.lock().unwrap()`: none is the panic.
  unfoldable pub get_locked : SyncService S → Option S
  get_locked service = if service.poisoned then none else some service.inner

  unfoldable pub clone_sync : (S → S) → SyncService S → Option (SyncService S)
  unfolding get_locked
  clone_sync clone service = elim (get_locked service) [
    | none ↦ none
    | some s ↦ some (new_sync (clone s))
  ]

abbrev pub after_call : {S F : Type 0} → Option F × S → Option F × SyncService S
after_call (none, s) = (none, record { inner = s; poisoned = true })
after_call (some future, s) = (some future, record { inner = s; poisoned = false })

-- `call` and `poll_ready`: the lock is held for the call.
unfoldable pub sync_call :
    {S R F : Type 0} → (S → R → Option F × S) → SyncService S → R → Option F × SyncService S
unfolding get_locked
sync_call call service req = elim (get_locked service) [
  | none ↦ (none, service)
  | some s ↦ after_call (call s req)
]
