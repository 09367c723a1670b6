-- ===== src/Mcp/Tools/Dispatch.antt =====
-- mcp_servers/common.py: what the flag of a result says, and the order of the `isinstance` tests.
use mcp_text_to_sql_agent.Prelude.{
  ◌⊎◌, inl, inr, String, ◌≡◌, ◌↔◌, refl, Bool, true, false, Option, none, some, List, [], ◌∷◌,
}
use mcp_text_to_sql_agent.Exceptions.{
  ErrorClass, text_to_sql_error, statement_timeout_error, permission_denied_error,
  unknown_table_error, sql_validation_error, embedding_model_mismatch_error, profiling_error,
  retrieval_error, execution_error, DomainError, raised, sql_validation, unknown_table, mro,
  class_of,
}
use mcp_text_to_sql_agent.Mcp.Tools.{
  own_error_type, error_type, Payload, failed, handled, Handled, returned, domain, unexpected,
  Checked, passes, violates, check_raises, is_error_of, lifted, CallResult, ToolSpec, error_payload,
  after_handler, after_check, find_tool, to_call_result, call_tool,
}

-- The error type of a class that has one of its own, given that of the exception.
abbrev pub type_of_class : String → ErrorClass → Option String
type_of_class own statement_timeout_error = some "statement_timeout"
type_of_class own permission_denied_error = some "permission_denied"
type_of_class own unknown_table_error = some "table_not_found"
type_of_class own sql_validation_error = some own
type_of_class own embedding_model_mismatch_error = some "connection_failed"
type_of_class own profiling_error = some "invalid_arguments"
type_of_class own retrieval_error = some "invalid_arguments"
type_of_class own execution_error = some "execution_failed"
type_of_class own _ = none

-- The error type of the nearest class in a list that has one.
abbrev pub nearest_type : String → List ErrorClass → String
nearest_type own [] = "internal_error"
nearest_type own (c ∷ cs) = elim (type_of_class own c) [
  | some type ↦ type
  | none ↦ nearest_type own cs
]

error_type-raised :
    (c : ErrorClass) (m : String) → error_type (raised c m) ≡ nearest_type "" (mro c)
unfolding error_type mro
error_type-raised text_to_sql_error m = refl
error_type-raised _ m = refl

-- The order of the tests is right for the hierarchy: an agent reads the error type of the nearest
-- class of the exception that has one, and `internal_error` if none has.
pub error_type-nearest :
    (e : DomainError) → error_type e ≡ nearest_type (own_error_type e) (mro (class_of e))
unfolding class_of
error_type-nearest (raised c m) = error_type-raised c m
error_type-nearest (sql_validation t m i) = unfold error_type mro in refl
error_type-nearest (unknown_table t s m) = unfold error_type mro in refl

module _ {Arguments Json : Type 0} where
  -- The arguments pass the schema, and the handler returns a payload with `ok` set.
  abbrev pub IsResult : ToolSpec Arguments Json → Arguments → Type 0
  IsResult spec arguments =
      (spec.check arguments ≡ passes)
      × ((json : Json) × (spec.handler arguments ≡ returned (some true) json))

  -- The flag of a payload that the handler returned.
  is_error_of-handled :
      (spec : ToolSpec Arguments Json) (arguments : Arguments) (ok : Option Bool) (json : Json)
      → spec.check arguments ≡ passes
      → spec.handler arguments ≡ returned ok json
      → (is_error_of (handled ok json) ≡ false) ↔ IsResult spec arguments
  is_error_of-handled spec arguments none json passed handles =
      (λ h. absurd (cc h), λ (_, (other, e)). absurd (cc (e, handles)))
  is_error_of-handled spec arguments (some true) json passed handles =
      (λ _. (passed, (json, handles)), λ _. refl)
  is_error_of-handled spec arguments (some false) json passed handles =
      (λ h. absurd (cc h), λ (_, (other, e)). absurd (cc (e, handles)))

module _ {Arguments Json : Type 0} (dumps : Payload Json → Option String) where
  -- What makes a call raise: a check that raises something else than a `ValidationError`, or a
  -- payload of the handler's own that has no JSON.
  abbrev pub Raises : ToolSpec Arguments Json → Arguments → Type 0
  Raises spec arguments =
      (spec.check arguments ≡ check_raises)
      ⊎ ((spec.check arguments ≡ passes)
          × ((ok : Option Bool) × (json : Json) × (spec.handler arguments ≡ returned ok json)
              × (dumps (handled ok json) ≡ none)))

  -- A call returns a result whose text is the JSON of its payload and whose flag is right, or it
  -- raises for one of these reasons.
  abbrev pub IsCalled : ToolSpec Arguments Json → Arguments → Option (CallResult Json) → Type 0
  IsCalled spec arguments called =
      ((r : CallResult Json) × (called ≡ some r)
        × (dumps r.payload ≡ some r.text)
        × ((r.is_error ≡ false) ↔ IsResult spec arguments))
      ⊎ ((called ≡ none) × Raises spec arguments)

  returned-IsCalled :
      (spec : ToolSpec Arguments Json) (arguments : Arguments) (ok : Option Bool) (json : Json)
      (text : Option String)
      → spec.check arguments ≡ passes
      → spec.handler arguments ≡ returned ok json
      → dumps (handled ok json) ≡ text
      → IsCalled spec arguments (to_call_result dumps (handled ok json))
  unfolding to_call_result
  returned-IsCalled spec arguments ok json none passed handles e =
      rw e (inr (refl, inr (passed, (ok, json, handles, e))))
  returned-IsCalled spec arguments ok json (some text) passed handles e =
      rw e (inl (_, refl, e, is_error_of-handled spec arguments ok json passed handles))

  module _
      (dumps_failed : (type message : String) (identifier suggestion : Option String)
        → (text : String) × (dumps (failed type message identifier suggestion) ≡ some text)) where
    -- A failure that the dispatch describes is returned and flagged.
    failed-IsCalled :
        (spec : ToolSpec Arguments Json) (arguments : Arguments) (type message : String)
        (identifier suggestion : Option String)
        → ¬ IsResult spec arguments
        → IsCalled spec arguments (to_call_result dumps (failed type message identifier suggestion))
    unfolding to_call_result
    failed-IsCalled spec arguments type message identifier suggestion refused =
        let (text, e) = dumps_failed type message identifier suggestion in
        rw e (inl (_, refl, e, (λ h. absurd (cc h), λ result. absurd (refused result))))

    after_handler-IsCalled :
        (spec : ToolSpec Arguments Json) (arguments : Arguments) (h : Handled Json)
        → spec.check arguments ≡ passes
        → spec.handler arguments ≡ h
        → IsCalled spec arguments (to_call_result dumps (after_handler h))
    unfolding after_handler error_payload
    after_handler-IsCalled spec arguments (returned ok json) passed handles =
        returned-IsCalled spec arguments ok json (dumps (handled ok json)) passed handles refl
    after_handler-IsCalled spec arguments (domain (raised c m)) passed handles =
        failed-IsCalled spec arguments _ _ _ _ (λ (_, (json, e)). absurd (cc (e, handles)))
    after_handler-IsCalled spec arguments (domain (sql_validation t m i)) passed handles =
        failed-IsCalled spec arguments _ _ _ _ (λ (_, (json, e)). absurd (cc (e, handles)))
    after_handler-IsCalled spec arguments (domain (unknown_table t s m)) passed handles =
        failed-IsCalled spec arguments _ _ _ _ (λ (_, (json, e)). absurd (cc (e, handles)))
    after_handler-IsCalled spec arguments unexpected passed handles =
        failed-IsCalled spec arguments _ _ _ _ (λ (_, (json, e)). absurd (cc (e, handles)))

    checked-IsCalled :
        (spec : ToolSpec Arguments Json) (arguments : Arguments) (c : Checked)
        → spec.check arguments ≡ c
        → IsCalled spec arguments (lifted dumps (after_check spec arguments c))
    unfolding after_check lifted to_call_result
    checked-IsCalled spec arguments check_raises e = inr (refl, inl e)
    checked-IsCalled spec arguments (violates v) e =
        failed-IsCalled spec arguments _ _ _ _ (λ (passed, _). absurd (cc (passed, e)))
    checked-IsCalled spec arguments passes e =
        after_handler-IsCalled spec arguments (spec.handler arguments) e refl

    -- Given that a payload of texts alone has JSON: a call of a tool that there is raises only if the
    -- check of its arguments raises something else than a `ValidationError`, or the payload that its
    -- handler returned has no JSON. Whatever else its arguments and its handler do, it returns a
    -- result with the JSON of the payload, flagged as no error exactly if the arguments passed the
    -- schema and the handler returned a payload with `ok` set.
    pub call_tool-is_error :
        (specs : List (ToolSpec Arguments Json)) (name : String) (arguments : Arguments)
        (spec : ToolSpec Arguments Json)
        → find_tool specs name ≡ some spec
        → IsCalled spec arguments (call_tool dumps specs name arguments)
    unfolding call_tool
    call_tool-is_error specs name arguments spec found =
        rw found (checked-IsCalled spec arguments (spec.check arguments) refl)
