-- ===== src/Health.antt =====
-- `AddHealthz` of health/health.go.
use larking.Base.{false, List, [], ◌∷◌, ◌++◌, codes}
use larking.Rules.Fields.{HttpRule, Pattern, get, custom}

abbrev rule_of : Pattern → HttpRule
rule_of p = record {
  selector = [];
  binding = record { pattern = p; body = []; response_body = []; nested = false };
  additional = [];
}

abbrev pub check_rule : HttpRule
check_rule = record (rule_of (get (codes "/v1/healthz"))) {
  selector = codes "grpc.health.v1.Health.Check";
}

abbrev pub watch_rule : HttpRule
watch_rule = record (rule_of (custom (codes "WEBSOCKET") (codes "/v1/healthz"))) {
  selector = codes "grpc.health.v1.Health.Watch";
}

-- proto.Merge appends the rules to those of the service.
unfoldable pub add_healthz : List HttpRule → List HttpRule
add_healthz dst = dst ++ check_rule ∷ watch_rule ∷ []
