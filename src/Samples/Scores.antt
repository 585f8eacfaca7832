-- ===== src/Samples/Scores.antt =====
-- The theorems on the scoring (app/agent/pattern_logic.py), the pattern tool and the worklist
-- (app/services/recommendation_service.py) at concrete inputs.
use mathlib.Core.Option
use card_fraud_ops_analyst_a.Prelude.{
  ℕ, ◌≤◌, ◌≡◌, ◌⊎◌, ◌↔◌, true, Option, none, some, List, [], ◌∷◌, refl, arith, length, is_some,
  contains,
}
use card_fraud_ops_analyst_a.Value.{end, get, append_item}
use card_fraud_ops_analyst_a.Floats.{to_float}
use card_fraud_ops_analyst_a.Agent.State.{InvestigationState, returned}
use card_fraud_ops_analyst_a.Scoring.Tally.{PatternScore}
use card_fraud_ops_analyst_a.Scoring.Severity.{
  critical, rank, severity_text, Signals, signals_of, classify, compute_severity,
  run_pattern_scoring,
}
use card_fraud_ops_analyst_a.Scoring.Amount.{score_amount_anomalies}
use card_fraud_ops_analyst_a.Scoring.CardTesting.{score_card_testing}
use card_fraud_ops_analyst_a.Scoring.Levels.{AtLeast, classify_mono, compute_severity-high_iff}
use card_fraud_ops_analyst_a.Scoring.Total.{AllInUnit, run_pattern_scoring-bounds}
use card_fraud_ops_analyst_a.Tools.PatternTool.{execute, evidence_of, results_of}
use card_fraud_ops_analyst_a.Tools.PatternTool.Effect.{IsScored, execute-IsScored}
use card_fraud_ops_analyst_a.Worklist.{Recommendation, Request, done, check_request, apply_request}
use card_fraud_ops_analyst_a.Worklist.Race.{
  World, reads, writes, Steps, here, next, IsOpen, IsDecided, Steps-one_decision,
}
use card_fraud_ops_analyst_a.Samples.{
  hundredths, loads, no_time, scoring, describe, thresholds, ready,
}

abbrev scores : List (PatternScore ℕ)
scores = elim (run_pattern_scoring hundredths no_time no_time scoring thresholds) [
  | none ↦ []
  | some ss ↦ ss
]

is_some-scores : is_some (run_pattern_scoring hundredths no_time no_time scoring thresholds) ≡ true
unfolding run_pattern_scoring Option.bind score_amount_anomalies get to_float score_card_testing
is_some-scores = refl

runs : run_pattern_scoring hundredths no_time no_time scoring thresholds ≡ some scores
runs = some_of (run_pattern_scoring hundredths no_time no_time scoring thresholds) is_some-scores
  where
    some_of :
        (o : Option (List (PatternScore ℕ)))
        → is_some o ≡ true
        → o ≡ some (elim o [ none ↦ [] | some ss ↦ ss ])
    some_of none h = cc
    some_of (some ss) h = refl

run_pattern_scoring-bounds_example :
    (length scores ≡ 6) × AllInUnit hundredths no_time no_time scores
run_pattern_scoring-bounds_example =
    run_pattern_scoring-bounds hundredths no_time no_time scoring thresholds scores runs

abbrev weak : Signals ℕ
weak = record {
  normalized_score = 20;
  max_score = 60;
  medium_signals = 1;
  network_medium = 0;
  network_strong = 0;
}

abbrev strong : Signals ℕ
strong = record {
  normalized_score = 40;
  max_score = 90;
  medium_signals = 2;
  network_medium = 1;
  network_strong = 1;
}

strong-AtLeast : AtLeast hundredths weak strong
strong-AtLeast = record {
  normalized = λ n h. ground arith;
  largest = λ n h. ground arith;
  medium_signals = ground arith;
  network_medium = ground arith;
  network_strong = ground arith;
}

classify_mono_example : rank (classify hundredths weak) ≤ rank (classify hundredths strong)
classify_mono_example = classify_mono hundredths weak strong strong-AtLeast

abbrev velocity : PatternScore ℕ
velocity = record { pattern_name = "velocity"; score = 60; weight = 100; details = end }

compute_severity-high_iff_example :
    let g = signals_of hundredths velocity [] in
    ((3 ≤ rank (compute_severity hundredths (velocity ∷ []))) ↔ (
      (hundredths.le (hundredths.pct 50) g.normalized_score ≡ true)
      ⊎ (2 ≤ g.network_strong)
      ⊎ ((hundredths.le (hundredths.pct 90) g.max_score ≡ true) × (1 ≤ g.network_medium))))
    × ((compute_severity hundredths (velocity ∷ []) ≡ critical)
        ↔ (hundredths.le (hundredths.pct 70) g.normalized_score ≡ true))
compute_severity-high_iff_example = compute_severity-high_iff hundredths velocity []

abbrev scored : InvestigationState ℕ
scored = record ready {
  evidence =
      append_item ready.evidence
        (evidence_of hundredths no_time no_time (λ c. scoring) describe scores);
  pattern_results = results_of hundredths no_time no_time (λ c. scoring) describe scores;
  severity = severity_text (compute_severity hundredths scores);
}

ready-scored :
    execute hundredths no_time no_time (λ c. scoring) describe thresholds ready ≡ returned scored
unfolding execute
ready-scored = rw runs refl

execute-IsScored_example :
    IsScored hundredths loads no_time no_time (λ c. scoring) describe ready scored
execute-IsScored_example =
    execute-IsScored hundredths loads no_time no_time (λ c. scoring) describe thresholds ready
      scored ready-scored

abbrev open_row : Recommendation
open_row = record { status = "OPEN"; acknowledged_by = none; acknowledged_at = none }

abbrev accepts : Request
accepts = record { user_id = "ana"; action = "ACKNOWLEDGED"; comment = none }

abbrev rejects : Request
rejects = record { user_id = "bo"; action = "REJECTED"; comment = some "no fraud" }

abbrev first_world : World
first_world = record { db = record { row = some open_row; audit = [] }; waiting = [] }

abbrev second_world : World
second_world = record first_world { waiting = record { request = accepts; read = open_row } ∷ [] }

-- both analysts have read the open row
abbrev third_world : World
third_world = record first_world {
  waiting =
      record { request = rejects; read = open_row }
      ∷ record { request = accepts; read = open_row }
      ∷ [];
}

accepts-read : check_request accepts (some open_row) ≡ done open_row
unfolding check_request contains
accepts-read = refl

rejects-read : check_request rejects (some open_row) ≡ done open_row
unfolding check_request contains
rejects-read = refl

-- the one who read first writes first
abbrev fourth_world : World
fourth_world = record {
  db = (apply_request "t1" accepts open_row third_world.db).0;
  waiting = record { request = rejects; read = open_row } ∷ [];
}

abbrev last_world : World
last_world = record { db = (apply_request "t2" rejects open_row fourth_world.db).0; waiting = [] }

race : Steps first_world last_world
race =
    next
      (next
        (next (next here (reads first_world accepts open_row accepts-read))
          (reads second_world rejects open_row rejects-read))
        (writes third_world "t1" (record { request = accepts; read = open_row })
          (record { request = rejects; read = open_row } ∷ []) [] refl))
      (writes fourth_world "t2" (record { request = rejects; read = open_row }) [] [] refl)

first-IsOpen : IsOpen first_world.db
first-IsOpen = record { row = open_row; present = refl; status = refl; audit = refl }

Steps-one_decision_example : IsOpen last_world.db ⊎ IsDecided last_world.db
Steps-one_decision_example = Steps-one_decision first-IsOpen refl race
