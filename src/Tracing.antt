-- ===== src/Tracing.antt =====
-- src/common/observability/tracing.util.ts: what a span records, and what the current trace is. The
-- spans are those of the tracing library; what a traced function itself says to its span is left
-- out.
use sky_high_core.Common.{ℕ, ◌≡◌, refl, String, Bool, Option, none, some, List, [], ◌∷◌, ◌++◌, map}
use sky_high_core.Domain.Errors.{Result, ok, err, Exception, Action}

pub data AttributeValue : Type 0 where
  text : String → AttributeValue
  number : ℕ → AttributeValue
  flag : Bool → AttributeValue

pub data SpanStatusCode : Type 0 where
  ok_code error_code : SpanStatusCode

-- The calls of a span.
pub data SpanCall : Type 0 where
  set_attribute : String → AttributeValue → SpanCall
  set_status : SpanStatusCode → (message : Option String) → SpanCall
  record_exception : Exception → SpanCall
  end_span : SpanCall

pub record TraceContext : Type 0 where
  pub trace_id : String
  pub span_id : String

-- Empty strings where there is no active span.
pub get_trace_context : Option TraceContext → TraceContext
get_trace_context none = record { trace_id = ""; span_id = "" }
get_trace_context (some span) = span

module _ (message_of : Exception → String) where
  -- The end of the `try`, the `catch` and the `finally`.
  abbrev recorded : {A : Type 0} → Result A → List SpanCall
  recorded (ok a) = set_status ok_code none ∷ end_span ∷ []
  recorded (err e) =
      set_status error_code (some (message_of e)) ∷ record_exception e ∷ end_span ∷ []

  -- What the traced function comes to, and the calls of its span in order.
  with_span :
      {S A : Type 0}
      → List (String × AttributeValue)
      → Action S A
      → S
      → (Result A × S) × List SpanCall
  with_span attributes fn s =
      (fn s, map (λ a. set_attribute a.0 a.1) attributes ++ recorded (fn s).0)

  -- A span changes nothing of what it goes around.
  with_span-same :
      {S A : Type 0} (attributes : List (String × AttributeValue)) (fn : Action S A) (s : S)
      → (with_span attributes fn s).0 ≡ fn s
  unfolding with_span
  with_span-same attributes fn s = refl
