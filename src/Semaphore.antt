-- ===== src/Semaphore.antt =====
-- `tokio::sync::Semaphore`, as a parameter, with its documented behaviour. A permit that is dropped
-- goes back to its semaphore.
use palisade.Prelude.{ℕ, suc, ◌≡◌, Option, none, some}

pub record Semaphores : Type 1 where
  pub Semaphore : Type 0
  pub sem_new : ℕ → Semaphore
  pub available_permits : Semaphore → ℕ
  pub try_acquire : Semaphore → Option Semaphore
  pub release : Semaphore → Semaphore

pub record SemaphoreLaws (p : Semaphores) : Type 0 where
  pub available-new : (n : ℕ) → p.available_permits (p.sem_new n) ≡ n
  pub try_acquire-none : (s : p.Semaphore) → p.try_acquire s ≡ none → p.available_permits s ≡ 0
  pub try_acquire-some :
      (s t : p.Semaphore)
      → p.try_acquire s ≡ some t
      → p.available_permits s ≡ suc (p.available_permits t)
  pub available-release :
      (s : p.Semaphore) → p.available_permits (p.release s) ≡ suc (p.available_permits s)
