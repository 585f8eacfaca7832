-- ===== src/Agent/Graph/Invariant.antt =====
-- What holds of an investigation between two supersteps of the graph (app/agent/graph.py).
use card_fraud_ops_analyst_a.Prelude.{
  ◌≤◌, ◌<◌, ◌≡◌, ◌⊎◌, inl, inr, String, Bool, true, false, List, [], ◌∷◌, ◌++◌, ◌==◌, if◌then◌else◌,
  refl, arith, ap, contains, contains-append, length, length-append, eq_iff,
}
use card_fraud_ops_analyst_a.Agent.State.{InvestigationState, ToolExecution}
use card_fraud_ops_analyst_a.Agent.Planner.Sequencing.{Ready, AllReady, analysis_tools, InOrder}
use card_fraud_ops_analyst_a.Agent.Executor.Effect.{Executed, succeeded}

-- No text twice.
abbrev pub Distinct : List String → Type 0
Distinct [] = Unit {0}
Distinct (x ∷ xs) = (contains x xs ≡ false) × Distinct xs

-- The tools whose executions succeeded, in order.
unfoldable pub successes : List ToolExecution → List String
successes [] = []
successes (x ∷ xs) = if succeeded x then x.tool_name ∷ successes xs else successes xs

pub Distinct-append :
    (k : String) (xs : List String) → Distinct xs → contains k xs ≡ false → Distinct (xs ++ k ∷ [])
unfolding contains
Distinct-append k [] d h = (refl, tt)
Distinct-append k (x ∷ xs) d h = (
  ground (arith, contains-append x k xs, eq_iff k x, eq_iff x k),
  Distinct-append k xs d.1 (ground arith),
)

pub successes-append :
    (xs : List ToolExecution) (x : ToolExecution)
    → successes (xs ++ x ∷ [])
      ≡ (if succeeded x then successes xs ++ x.tool_name ∷ [] else successes xs)
unfolding successes
successes-append [] x = refl
successes-append (y ∷ ys) x = ground (arith, successes-append ys x)

-- A completed tool found its predecessors completed, as far as they are registered.
pub record Sequenced (available completed : List String) : Type 0 where
  pub analyses :
      contains "reasoning_tool" completed ≡ true → AllReady available completed analysis_tools
  pub reasoning :
      contains "recommendation_tool" completed ≡ true → Ready available completed "reasoning_tool"

module _ {F : Type 0} where
  pub record IsConsistent (available : List String) (s : InvestigationState F) : Type 0 where
    -- every step is one decision
    pub decisions : length s.planner_decisions ≡ s.step_count
    -- the completed steps are the successful executions, each tool once
    pub completed : s.completed_steps ≡ successes s.tool_executions
    pub distinct : Distinct s.completed_steps
    pub no_complete : contains "COMPLETE" s.completed_steps ≡ false
    pub sequenced : Sequenced available s.completed_steps
    -- no execution without a decision
    pub executions : length s.tool_executions ≤ s.step_count

  -- The planner has chosen a tool that may run.
  pub record IsPending (available : List String) (s : InvestigationState F) : Type 0 where
    pub fresh : contains s.next_action s.completed_steps ≡ false
    pub in_order : InOrder available s.completed_steps s.next_action
    pub not_complete : (s.next_action == "COMPLETE") ≡ false
    pub room : length s.tool_executions < s.step_count

module _ (available completed : List String) (tool : String) where
  Ready-append :
      (other : String)
      → Ready available completed other
      → Ready available (completed ++ tool ∷ []) other
  Ready-append other r = ground (arith, contains-append other tool completed)

  AllReady-append :
      (others : List String)
      → AllReady available completed others
      → AllReady available (completed ++ tool ∷ []) others
  AllReady-append [] r = tt
  AllReady-append (x ∷ xs) r = (Ready-append x r.0, AllReady-append xs r.1)

  contains_cases :
      (k : String)
      → contains k (completed ++ tool ∷ []) ≡ true
      → (contains k completed ≡ true) ⊎ (tool ≡ k)
  contains_cases k h = ground (arith, contains-append k tool completed, eq_iff tool k)

  Sequenced-append :
      Sequenced available completed
      → InOrder available completed tool
      → Sequenced available (completed ++ tool ∷ [])
  Sequenced-append s o = record {
    analyses = λ h. elim (contains_cases "reasoning_tool" h) [
      | inl old ↦ AllReady-append analysis_tools (s.analyses old)
      | inr new ↦ AllReady-append analysis_tools (o.analyses new)
    ];
    reasoning = λ h. elim (contains_cases "recommendation_tool" h) [
      | inl old ↦ Ready-append "reasoning_tool" (s.reasoning old)
      | inr new ↦ Ready-append "reasoning_tool" (o.reasoning (inl new))
    ];
  }

module _ {F : Type 0} (available : List String) (s t : InvestigationState F) where
  -- a successful execution of a pending tool
  done-IsConsistent :
      Executed true s t
      → IsConsistent available s
      → IsPending available s
      → IsConsistent available t
  done-IsConsistent x c p =
      let added : t.completed_steps ≡ s.completed_steps ++ s.next_action ∷ [] = x.completed in
      record {
        decisions = rw (x.decisions, x.steps) c.decisions;
        completed =
            rw
              (
                added,
                x.executions,
                successes-append s.tool_executions x.execution,
                x.status,
                x.named,
              )
              (ap (λ (l : List String). l ++ s.next_action ∷ []) c.completed);
        distinct = rw added (Distinct-append s.next_action s.completed_steps c.distinct p.fresh);
        no_complete =
            rw (added, contains-append "COMPLETE" s.next_action s.completed_steps, c.no_complete)
              p.not_complete;
        sequenced =
            rw added
              (Sequenced-append available s.completed_steps s.next_action c.sequenced p.in_order);
        executions = rw (x.executions, x.steps, length-append) (omega (arith, p.room));
      }

  -- an execution without success
  undone-IsConsistent :
      Executed false s t
      → IsConsistent available s
      → IsPending available s
      → IsConsistent available t
  undone-IsConsistent x c p =
      let same : t.completed_steps ≡ s.completed_steps = x.completed in
      record {
        decisions = rw (x.decisions, x.steps) c.decisions;
        completed =
            rw (same, x.executions, successes-append s.tool_executions x.execution, x.status)
              c.completed;
        distinct = rw same c.distinct;
        no_complete = rw same c.no_complete;
        sequenced = rw same c.sequenced;
        executions = rw (x.executions, x.steps, length-append) (omega (arith, p.room));
      }

  pub Executed-IsConsistent :
      (done : Bool)
      → Executed done s t
      → IsConsistent available s
      → IsPending available s
      → IsConsistent available t
  Executed-IsConsistent true = done-IsConsistent
  Executed-IsConsistent false = undone-IsConsistent
