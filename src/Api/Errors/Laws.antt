-- ===== src/Api/Errors/Laws.antt =====
-- The chain of `isinstance` tests against the published table, and what a publication may reveal.
use mcp_text_to_sql_agent.Prelude.{
  arith, String, ◌≡◌, ◌≢◌, refl, Option, none, some, List, [], ◌∷◌, ◌⊎◌,
}
use mcp_text_to_sql_agent.Exceptions.{
  ErrorClass, text_to_sql_error, configuration_error, llm_error, llm_unavailable_error,
  llm_quota_exceeded_error, retrieval_error, sql_validation_error, statement_timeout_error,
  permission_denied_error, DomainError, raised, sql_validation, unknown_table, mro, class_of,
  message_of,
}
use mcp_text_to_sql_agent.Api.Errors.{
  ErrorCode, query_timeout, sql_validation_failed, rate_limited, llm_unavailable,
  ambiguous_question, internal_error, generic_failure, code_for, Publication, published,
}

-- The code of a class that has one of its own.
abbrev pub own_code : ErrorClass → Option ErrorCode
own_code statement_timeout_error = some query_timeout
own_code permission_denied_error = some sql_validation_failed
own_code sql_validation_error = some sql_validation_failed
own_code llm_quota_exceeded_error = some rate_limited
own_code llm_unavailable_error = some llm_unavailable
own_code llm_error = some llm_unavailable
own_code retrieval_error = some ambiguous_question
own_code configuration_error = some internal_error
own_code _ = none

-- The code of the nearest class in a list that has one.
abbrev pub nearest_code : List ErrorClass → ErrorCode
nearest_code [] = internal_error
nearest_code (c ∷ cs) = elim (own_code c) [ some code ↦ code | none ↦ nearest_code cs ]

code_for-raised : (c : ErrorClass) (m : String) → code_for (raised c m) ≡ nearest_code (mro c)
unfolding code_for mro
code_for-raised text_to_sql_error m = refl
code_for-raised _ m = refl

-- The order of the `isinstance` tests is right for the hierarchy: an exception of any class gets
-- the code of the nearest of its classes that has a code of its own, and the code of an internal
-- error if none has.
pub code_for-nearest : (e : DomainError) → code_for e ≡ nearest_code (mro (class_of e))
unfolding class_of
code_for-nearest (raised c m) = code_for-raised c m
code_for-nearest (sql_validation t m i) = unfold code_for mro in refl
code_for-nearest (unknown_table t s m) = unfold code_for mro in refl

-- A publication is the exception's own code and text, or the internal error with the fixed text;
-- the second exactly when the exception's code is internal.
abbrev pub IsPublicationOf : DomainError → Publication → Type 0
IsPublicationOf e p =
    ((nearest_code (mro (class_of e)) ≢ internal_error)
      × (p ≡ record { error = nearest_code (mro (class_of e)); message = message_of e }))
    ⊎ ((nearest_code (mro (class_of e)) ≡ internal_error)
        × (p ≡ record { error = internal_error; message = generic_failure }))

published-raised :
    (c : ErrorClass) (m : String) → IsPublicationOf (raised c m) (published (raised c m))
unfolding published mro class_of
published-raised text_to_sql_error m = ground arith
published-raised _ m = ground arith

-- Whatever the exception: a caller reads its own text under the code of its nearest published
-- class, unless that code is the internal error, where the text is the same for every exception.
pub published-IsPublicationOf : (e : DomainError) → IsPublicationOf e (published e)
published-IsPublicationOf (raised c m) = published-raised c m
published-IsPublicationOf (sql_validation t m i) = unfold published mro class_of in ground arith
published-IsPublicationOf (unknown_table t s m) = unfold published mro class_of in ground arith
