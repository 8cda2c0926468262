-- ===== src/AlertQueue/Adapter.antt =====
-- The choice of the queue in services/security-alert-delivery-queue.ts:
-- `createSecurityAlertDeliveryQueueFromEnv`, with the record of the adapter's health.
use aljama_wallet.Base.{
  ℕ, ◌≡◌, ◌↔◌, ◌⊎◌, inl, inr, refl, Bool, true, false, Option, none, some, Text, text,
  if◌then◌else◌,
}

pub data Backend : Type 0 where
  in_memory redis : Backend

pub record Health : Type 0 where
  pub requested : Backend
  pub active : Backend
  pub degraded : Bool
  pub reason : Option Text
  pub last_failure_at : Option ℕ
  pub require_durable : Bool

-- `none` is the error durable_queue_required. `failure` is what became of building the queue in Redis
-- and reading its statistics: `none`, or the message of the error.
unfoldable pub memory_unless_durable : Bool → ℕ → Option Backend × Health
memory_unless_durable true now =
    let reason =
      text
        "SECURITY_ALERT_DELIVERY_QUEUE_BACKEND must be redis when durable delivery is required" in
    (
      none,
      record {
        requested = in_memory;
        active = in_memory;
        degraded = true;
        reason = some reason;
        last_failure_at = some now;
        require_durable = true;
      },
    )
memory_unless_durable false now = (
  some in_memory,
  record {
    requested = in_memory;
    active = in_memory;
    degraded = false;
    reason = none;
    last_failure_at = none;
    require_durable = false;
  },
)

unfoldable pub redis_or_memory : Bool → Option Text → ℕ → Option Backend × Health
redis_or_memory durable none now = (
  some redis,
  record {
    requested = redis;
    active = redis;
    degraded = false;
    reason = none;
    last_failure_at = none;
    require_durable = durable;
  },
)
redis_or_memory durable (some reason) now = (
  if durable then none else some in_memory,
  record {
    requested = redis;
    active = if durable then redis else in_memory;
    degraded = true;
    reason = some reason;
    last_failure_at = some now;
    require_durable = durable;
  },
)

unfoldable pub create_queue : Backend → Bool → Option Text → ℕ → Option Backend × Health
unfolding memory_unless_durable redis_or_memory
create_queue in_memory durable failure now = memory_unless_durable durable now
create_queue redis durable failure now = redis_or_memory durable failure now

-- Where durable delivery is required there is a queue in Redis or an error, never one in memory; in
-- every case the health is degraded exactly if the queue that was asked for could not be had.
pub create_queue_lem :
    (requested : Backend) (durable : Bool) (failure : Option Text) (now : ℕ)
    → let (queue, health) = create_queue requested durable failure now in
      (durable ≡ true → (queue ≡ none) ⊎ (queue ≡ some redis))
      × ((health.degraded ≡ false) ↔ (queue ≡ some requested))
unfolding create_queue memory_unless_durable redis_or_memory
create_queue_lem in_memory true failure now = (λ _. inl refl, (λ e. cc, λ e. cc))
create_queue_lem in_memory false failure now = (λ e. cc, (λ _. refl, λ _. refl))
create_queue_lem redis durable none now = (λ _. inr refl, (λ _. refl, λ _. refl))
create_queue_lem redis true (some reason) now = (λ _. inl refl, (λ e. cc, λ e. cc))
create_queue_lem redis false (some reason) now = (λ e. cc, (λ e. cc, λ e. cc))
