-- ===== src/Lifecycle/Endings.antt =====
-- What becomes of a generation once it has ended, or once its cancellation is requested, while the API
-- and the workers take steps of turns.
use gist_agent.Base.{ℕ, some, false, ◌≡◌, refl, ◌⊎◌, inl, inr, arith, first_where, ◌==◌}
use gist_agent.Contracts.{Status, failed, cancelled, cancel_requested, is_active}
use gist_agent.Database.{Generation, Tables}
use gist_agent.Lifecycle.{
  Settings, Edge, start, run, request_cancel, complete, fail, stop, Leads, here, then,
  Edge-is_active, Reach,
}
use gist_agent.Lifecycle.Rows.{Rows-first_where}
use gist_agent.Lifecycle.Steps.{Reach-Rows}

pub Leads-of_ended : {s t : Status} → is_active s ≡ false → Leads s t → t ≡ s
Leads-of_ended h here = refl
Leads-of_ended h (then p e) =
    let q = Leads-of_ended h p in absurd (ground (arith, Edge-is_active e))

-- Cancellation is never undone: the statuses that may follow it.
abbrev pub IsStopping : Status → Type 0
IsStopping s = (s ≡ cancel_requested) ⊎ (s ≡ failed) ⊎ (s ≡ cancelled)

Edge-IsStopping : {s t : Status} → Edge s t → IsStopping s → IsStopping t
Edge-IsStopping start h = ground arith
Edge-IsStopping run h = ground arith
Edge-IsStopping (request_cancel e) h = inl refl
Edge-IsStopping (complete e) h = ground arith
Edge-IsStopping (fail e) h = inr (inl refl)
Edge-IsStopping (stop e) h = inr (inr refl)

Leads-IsStopping : {s t : Status} → Leads s t → IsStopping s → IsStopping t
Leads-IsStopping here h = h
Leads-IsStopping (then p e) h = Edge-IsStopping e (Leads-IsStopping p h)

-- Once the cancellation of a generation, the first row of its identifier, is requested, no steps of turns
-- and workers complete it: it is still to be cancelled, failed or cancelled.
pub Reach-IsStopping :
    {settings : Settings} {db last : Tables} (id : ℕ) (g : Generation)
    → Reach settings db last
    → first_where (λ r. r.id == id) db.generations ≡ some g
    → g.status ≡ cancel_requested
    → (h : Generation) × (first_where (λ r. r.id == id) last.generations ≡ some h)
      × IsStopping h.status
Reach-IsStopping id g r e t =
    let (h, found, step) = Rows-first_where id _ _ g (Reach-Rows r) e in
    (h, found, Leads-IsStopping step.leads (inl t))
