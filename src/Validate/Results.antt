-- ===== src/Validate/Results.antt =====
-- src/dispatch.cpp: what handlers' results are before they are sent.
use xgc2_adapter_runtime_cli.Base.{
  ◌≤◌, ◌≡◌, refl, Bool, true, false, not, ◌&&◌, ◌||◌, text, Bytes, length, ltb, if_cases, arith,
}
use xgc2_adapter_runtime_cli.Message.{Environment}
use xgc2_adapter_runtime_cli.Message.Errors.{ErrorClass, default_payload}
use xgc2_adapter_runtime_cli.Message.Spec.{CapabilityEndpointContract}
use xgc2_adapter_runtime_cli.Text.{
  is_typed_error, make_error, is_canonical_identifier, is_canonical_text,
}
use xgc2_adapter_runtime_cli.Frames.{UnaryResult, unary_failure}
use xgc2_adapter_runtime_cli.Validate.{has_error, has_payload, output_matches, check_unary_result}

-- A client's own failure, whose class is between the bounds.
typed_failure :
    ⦃w : Environment⦄ (class : ErrorClass) (code message : Bytes)
    → w.class_number ErrorClass.permanent ≤ w.class_number class
    → w.class_number class ≤ w.class_number ErrorClass.resource_exhausted
    → is_canonical_identifier code ≡ true
    → is_canonical_text message ≡ true
    → is_typed_error (make_error class code message) ≡ true
unfolding is_typed_error make_error
typed_failure class code message low high id txt = ground arith

module _ ⦃w : Environment⦄ where
  -- Exactly one of a valid output within its limit, or a typed error, and nothing of the other.
  pub record IsSound (endpoint : CapabilityEndpointContract) (result : UnaryResult) : Type 0 where
    pub success :
        result.succeeded ≡ true
        → (output_matches endpoint result.output ≡ true)
          × (has_error result.error ≡ false)
          × (length result.output.value ≤ endpoint.limits.maximum_response_bytes)
    pub failure :
        result.succeeded ≡ false
        → (is_typed_error result.error ≡ true) × (has_payload result.output ≡ false)

-- The numbers of the enumerators that the client names stand in the order of the protocol, and an empty
-- payload has no bytes.
module _ ⦃w : Environment⦄
    (rising : w.class_number ErrorClass.permanent ≤ w.class_number ErrorClass.cancelled)
    (falling : w.class_number ErrorClass.cancelled ≤ w.class_number ErrorClass.resource_exhausted)
    (empty : w.payload_size default_payload ≡ 0) where
  failure-IsSound :
      (endpoint : CapabilityEndpointContract) (class : ErrorClass) (code message : Bytes)
      → is_typed_error (make_error class code message) ≡ true
      → IsSound endpoint (unary_failure class code message)
  unfolding unary_failure has_payload
  failure-IsSound endpoint class code message typed = record {
    success = λ h. ground arith;
    failure = λ h. (typed, ground arith);
  }

  malformed_success :
      is_typed_error (
        make_error ErrorClass.permanent
          (text "invalid-handler-result")
          (text "unary handler returned a malformed success result"))
      ≡ true
  unfolding is_canonical_identifier is_canonical_text text
  malformed_success =
      typed_failure ErrorClass.permanent _ _ (omega (arith, rising))
        (omega (arith, rising, falling)) refl refl

  malformed_failure :
      is_typed_error (
        make_error ErrorClass.permanent
          (text "invalid-handler-result")
          (text "unary handler returned a malformed failure result"))
      ≡ true
  unfolding is_canonical_identifier is_canonical_text text
  malformed_failure =
      typed_failure ErrorClass.permanent _ _ (omega (arith, rising))
        (omega (arith, rising, falling)) refl refl

  too_large :
      is_typed_error (
        make_error ErrorClass.resource_exhausted
          (text "response-too-large")
          (text "unary output exceeds its contract limit"))
      ≡ true
  unfolding is_canonical_identifier is_canonical_text text
  too_large =
      typed_failure ErrorClass.resource_exhausted _ _ (omega (arith, rising, falling))
        (omega (arith, rising, falling)) refl refl

  was_cancelled :
      is_typed_error
        (make_error ErrorClass.cancelled (text "cancelled") (text "unary work was cancelled"))
      ≡ true
  unfolding is_canonical_identifier is_canonical_text text
  was_cancelled = typed_failure ErrorClass.cancelled _ _ rising falling refl refl

  -- With the classes that the client names numbered between the bounds of a typed error, and an empty payload
  -- without bytes: whatever a unary handler returned, what is sent is either a success with an output of the
  -- contract's schema within its limit and no error, or a failure with a typed error and no output; and a
  -- success is sent only if the handler succeeded and the work was not cancelled.
  pub check_unary_result_lem :
      (endpoint : CapabilityEndpointContract) (cancelled : Bool) (result : UnaryResult)
      → IsSound endpoint (check_unary_result endpoint cancelled result)
        × ((check_unary_result endpoint cancelled result).succeeded ≡ true
            → (result.succeeded ≡ true) × (cancelled ≡ false))
  unfolding check_unary_result unary_failure
  check_unary_result_lem endpoint cancelled result =
      if_cases P
        (result.succeeded
          && (has_error result.error || not (output_matches endpoint result.output)))
        (λ _. (failure-IsSound endpoint _ _ _ malformed_success, λ h. ground arith))
        (λ a.
          if_cases P
            (not result.succeeded
              && (has_payload result.output || not (is_typed_error result.error)))
            (λ _. (failure-IsSound endpoint _ _ _ malformed_failure, λ h. ground arith))
            (λ b.
              if_cases P
                (result.succeeded
                  && ltb endpoint.limits.maximum_response_bytes (length result.output.value))
                (λ _. (failure-IsSound endpoint _ _ _ too_large, λ h. ground arith))
                (λ c.
                  if_cases P (cancelled && result.succeeded)
                    (λ _. (failure-IsSound endpoint _ _ _ was_cancelled, λ h. ground arith))
                    (λ d. (
                      record {
                        success = λ h. (ground arith, ground arith, ground arith);
                        failure = λ h. (ground arith, ground arith);
                      },
                      λ h. (h, ground arith),
                    )))))
    where
      P : UnaryResult → Type 0
      P r =
          IsSound endpoint r
          × (r.succeeded ≡ true → (result.succeeded ≡ true) × (cancelled ≡ false))
