-- ===== src/Condition.antt =====
-- Status conditions: insertOrUpdateConditionsInSlice, removeCondition and createCondition of
-- controllers/argocd/util.go. A condition is metav1.Condition of k8s.io/apimachinery; its times are
-- numbers. The scan for the index and the write at that index are one recursion.
pub mod Laws
use argocd_operator.Base.{ℕ, String, Bool, true, false, not, ◌&&◌, List, [], ◌∷◌}
use argocd_operator.Base.{◌==◌, string_eq, if◌then◌else◌}

pub record Condition : Type 0 where
  pub type : String
  pub status : String
  pub observed_generation : ℕ
  pub last_transition_time : ℕ
  pub reason : String
  pub message : String

abbrev pub condition_true : String
condition_true = "True"

abbrev pub condition_false : String
condition_false = "False"

abbrev pub reconciled_type : String
reconciled_type = "Reconciled"

abbrev pub configuration_error : String
configuration_error = "UnsupportedConfiguration"

abbrev pub reason_success : String
reason_success = "Success"

abbrev pub reason_sso_error : String
reason_sso_error = "UnsupportedSSOConfiguration"

abbrev pub reason_error_occurred : String
reason_error_occurred = "ErrorOccurred"

abbrev pub open_shift_oauth_error_message : String
open_shift_oauth_error_message =
    "OpenShiftOAuth is not supported when external authentication is enabled on cluster, please provide OIDC config"

-- The comparison of message, reason and status.
abbrev pub same_content : Condition → Condition → Bool
same_content c d = c.message == d.message && c.reason == d.reason && c.status == d.status

-- Whether the slice changed, and the slice.
unfoldable pub insert_or_update : Condition → ℕ → List Condition → Bool × List Condition
insert_or_update new now [] = (true, record new { last_transition_time = now } ∷ [])
insert_or_update new now (c ∷ cs) =
    let (changed, rest) = insert_or_update new now cs in
    if c.type == new.type
    then (if same_content c new
        then (false, c ∷ cs)
        else (true, record new { last_transition_time = now } ∷ cs))
    else (changed, c ∷ rest)

unfoldable pub remove_condition : String → List Condition → List Condition
remove_condition t [] = []
remove_condition t (c ∷ cs) =
    let rest = remove_condition t cs in if c.type == t then rest else c ∷ rest

unfoldable pub create_condition : String → Condition
create_condition message =
    if message == open_shift_oauth_error_message
    then record {
      type = configuration_error;
      status = condition_true;
      observed_generation = 0;
      last_transition_time = 0;
      reason = reason_sso_error;
      message = message;
    }
    else (if message == ""
        then record {
          type = reconciled_type;
          status = condition_true;
          observed_generation = 0;
          last_transition_time = 0;
          reason = reason_success;
          message = "";
        }
        else record {
          type = reconciled_type;
          status = condition_false;
          observed_generation = 0;
          last_transition_time = 0;
          reason = reason_error_occurred;
          message = message;
        })
