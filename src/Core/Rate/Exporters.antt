-- ===== src/Core/Rate/Exporters.antt =====
-- The flows of several exporters in outlet/core/rate.go.
use mathlib.Core.Logic.{ite}
use akvorado.Prelude.{ℕ, ◌≡◌, refl, Bool, Option, some, List, [], ◌∷◌, arith}
use akvorado.GoMap
use akvorado.GoMap.{GoMap, get-put}
use akvorado.Net.{Addr}
use akvorado.Core.Rate.{PerExporterRateLimiter, addr_discrete, update, allow_one_message}

-- What the limiter answers to the flows of one exporter, in a sequence of flows of all exporters.
unfoldable pub answers :
    Addr → ℕ → List (Addr × ℕ) → GoMap Addr PerExporterRateLimiter → List (Bool × (ℕ × ℕ))
answers own limit [] rl = []
answers own limit ((exporter, t) ∷ flows) rl =
    let r = allow_one_message exporter limit t rl in
    let rest = answers own limit flows r.0 in
    ite (addr_discrete exporter own) ((r.1, r.2) ∷ rest) rest

-- The times of the flows of one exporter.
unfoldable pub own_times : Addr → List (Addr × ℕ) → List ℕ
own_times own [] = []
own_times own ((exporter, t) ∷ flows) =
    let rest = own_times own flows in ite (addr_discrete exporter own) (t ∷ rest) rest

-- What a limiter of one exporter alone answers.
unfoldable pub answers_alone : ℕ → List ℕ → Option PerExporterRateLimiter → List (Bool × (ℕ × ℕ))
answers_alone limit [] loaded = []
answers_alone limit (t ∷ ts) loaded =
    let r = update limit t loaded in (r.1, r.0.factor) ∷ answers_alone limit ts (some r.0)

-- The exporters do not disturb each other: in any sequence of flows of any exporters, the verdicts and
-- the corrections for the flows of one exporter are those that a limiter gives that sees these
-- flows only.
pub answers_lem :
    (own : Addr) (limit : ℕ) (flows : List (Addr × ℕ)) (rl : GoMap Addr PerExporterRateLimiter)
    → answers own limit flows rl
      ≡ answers_alone limit (own_times own flows) (GoMap.get addr_discrete own rl)
unfolding answers own_times answers_alone allow_one_message
answers_lem own limit [] rl = refl
answers_lem own limit ((exporter, t) ∷ flows) rl =
    let r = update limit t (GoMap.get addr_discrete exporter rl) in
    let rest = answers_lem own limit flows (GoMap.put addr_discrete exporter r.0 rl) in
    let read = get-put addr_discrete exporter own r.0 rl in rw (rest, read) (ground arith)
