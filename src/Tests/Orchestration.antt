-- ===== src/Tests/Orchestration.antt =====
-- crates/permissionsync-orchestration on one request that runs to its end.
use permissionsync.Prelude.{ℕ, ◌≡◌, refl, true, false, [], ◌∷◌, ok, text}
use permissionsync.Domain.Values.{DesiredStateEnvelope}
use permissionsync.Domain.Context.{changed}
use permissionsync.Routing.{resolve}
use permissionsync.Orchestration.{
  SelectedTargetSynchronizationRequest, Ports, SelectedTargetSynchronizer, synchronize,
}
use permissionsync.Orchestration.Trace.{recording, Conversation}
use permissionsync.Orchestration.Trace.Stages.{synchronize-Conversation}

abbrev request : SelectedTargetSynchronizationRequest
request = record {
  identity = record { username = text "u"; groups = [] };
  target = record { value = text "x" };
  technical_caller_bearer_token = record { value = text "t" };
  context = record { deadline = 9 };
}

abbrev envelope : DesiredStateEnvelope
envelope = record { version = record { value = 1 }; payload = record { json = text "{}" } }

-- Nothing is cancelled, and every port succeeds.
abbrev ports : Ports ℕ ℕ
ports = record {
  is_cancelled_or_expired = λ context w. (false, w);
  acquire = λ context w. (ok tt, w);
  release = λ w. w;
  provider = λ request w. (ok envelope, w);
  reconcile = λ adapter request w. (ok changed, w);
}

abbrev synchronizer : SelectedTargetSynchronizer ℕ
synchronizer = record {
  router = record {
    routes = (text "x", record { identifier = text "a" }) ∷ [];
    adapters = (text "a", 5) ∷ [];
  };
  has_provider = true;
}

synchronize_test : (synchronize (recording ports) synchronizer request (0, [])).0 ≡ ok changed
unfolding synchronize recording resolve
synchronize_test = refl

synchronize-Conversation_example :
    Conversation request synchronizer
      (synchronize (recording ports) synchronizer request (0, [])).1.1
      (synchronize (recording ports) synchronizer request (0, [])).0
synchronize-Conversation_example = synchronize-Conversation ports request synchronizer 0
