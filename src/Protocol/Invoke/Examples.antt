-- ===== src/Protocol/Invoke/Examples.antt =====
-- The unit tests of src/protocol/invoke.rs, and theorems at concrete inputs.
use ac_signalr_client_lib_rs.Base.{ℕ, ◌≡◌, refl, none, lit, ok, err}
use ac_signalr_client_lib_rs.Protocol.Invoke.{into_result, create_result}

test_completion_into_result_success : into_result {R = ℕ} (create_result (lit "123") 42) ≡ ok 42
unfolding into_result create_result
test_completion_into_result_success = refl

test_completion_into_result_empty_is_error :
    into_result {R = ℕ} (record (create_result (lit "123") 42) { result = none })
    ≡ err (lit "Completion did not include a result or error")
unfolding into_result create_result
test_completion_into_result_empty_is_error = refl
