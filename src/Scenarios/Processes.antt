-- ===== src/Scenarios/Processes.antt =====
-- The processes of the repository: the manager, the example agent, and an agent on its way to Ready.
use a2a_registry.Common.{
  String, ◌==◌, [], ◌∷◌, none, some, ok, err, refl, inr, false≢true, if◌then◌else◌,
}
use a2a_registry.Common.Int32.{pos}
use a2a_registry.Api.{A2aAgent, zero_status}
use a2a_registry.Platform.{Std, CommandLine, ascii_std, memory_client, list_util}
use a2a_registry.GoStrings.{trim_right_func}
use a2a_registry.Resolver.{Network, primary_path, try_fetch, fetch_card_with_auth}
use a2a_registry.HealthCheck.{check_with_auth}
use a2a_registry.AgentController.Checks.{check_url_conflict, get_registry_config, is_approved}
use a2a_registry.Server.{Server, new_server}
use a2a_registry.Manager.Calls.{Environment}
use a2a_registry.Manager.{parse_flags, main}
use a2a_registry.Manager.Laws.{Launch, plan, main-Launch}
use a2a_registry.HelloAgent.{A2asrv, Flags, agent_card, serve}
use a2a_registry.HelloAgent.Laws.{LawfulA2asrv, Describes, reconcile_live-HelloAgent}
use a2a_registry.Handler.Register.{approve}
use a2a_registry.AgentController.Reconcile.{reconcile_live}
use a2a_registry.AgentController.Safety.Allowed.{ReadyOk}
use a2a_registry.AgentController.Live.{EndsReady, reconcile_live-Ready}
use a2a_registry.RegistryController.{reconcile_registry}
use a2a_registry.RegistryController.Runs.{Run, reconcile_registry-Run}
use a2a_registry.System.Approval.{reconcile_live-approve}
use a2a_registry.Scenarios.Samples.{
  agent_at, greeter, approved, discovery, before, old_hosts, request_for,
}

-- Everything succeeds, with no flags on the command line and no environment variables.
abbrev no_arguments : CommandLine
no_arguments = record {
  string_flag = λ name. none;
  bool_flag = λ name. none;
  int_flag = λ name. none;
}

abbrev no_variables : String → String
no_variables key = ""

abbrev quiet : Environment Unit
quiet = record { answer = λ w call. (none, w) }

main-Launch_example :
    (let r = main quiet ascii_std no_arguments no_variables (record { env = tt; calls = [] }) in
      Launch
        (plan
          (parse_flags no_arguments)
          (new_server ascii_std (parse_flags no_arguments).registry_api_addr)
          "")
        r.1.calls
        r.0)
main-Launch_example = main-Launch quiet ascii_std no_arguments no_variables tt

greeter-ReadyOk : ReadyOk ascii_std memory_client old_hosts before.cluster greeter
unfolding is_approved check_url_conflict check_with_auth fetch_card_with_auth try_fetch
    trim_right_func get_registry_config
greeter-ReadyOk = record {
  no_conflict = refl;
  enabled = refl;
  approved = λ _. refl;
  checked = inr (refl, λ m. absurd (false≢true m));
}

reconcile_live-Ready_example :
    EndsReady ascii_std memory_client old_hosts list_util 100 greeter before
      (reconcile_live ascii_std memory_client list_util old_hosts 100 greeter before)
reconcile_live-Ready_example =
    reconcile_live-Ready ascii_std memory_client old_hosts list_util 100 greeter before
      greeter-ReadyOk

-- The agent at that URL before anyone approved it.
abbrev newcomer : A2aAgent
newcomer = agent_at "greeter" "http://greeter" zero_status

reconcile_live-approve_example :
    EndsReady ascii_std memory_client old_hosts list_util 100
      (approve 9 newcomer)
      before
      (reconcile_live ascii_std memory_client list_util old_hosts 100 (approve 9 newcomer) before)
unfolding check_url_conflict check_with_auth fetch_card_with_auth try_fetch trim_right_func
    get_registry_config
reconcile_live-approve_example =
    reconcile_live-approve ascii_std memory_client old_hosts list_util 9 100 newcomer before refl
      refl (inr (refl, λ m. absurd (false≢true m)))

abbrev hello_flags : Flags
hello_flags = record { port = pos 9001; name = "hello"; desc = "A demo"; skill_id = "greet" }

-- A decoder that knows the card of the example agent.
abbrev hello_std : Std
hello_std = record ascii_std {
  decode_card = λ s. if s == "card" then ok (agent_card ascii_std hello_flags) else err "EOF";
}

abbrev hello_srv : A2asrv
hello_srv = record {
  well_known_agent_card_path = primary_path;
  static_agent_card_handler = λ card r. record { status_code = 200; body = "card" };
  json_rpc_handler = λ executor r. record { status_code = 200; body = "" };
}

hello_srv-LawfulA2asrv : LawfulA2asrv hello_std hello_srv hello_flags
unfolding agent_card
hello_srv-LawfulA2asrv = record {
  path = refl;
  json = "card";
  served = λ r e. refl;
  decoded = refl;
  marshalled = ("hello", refl);
}

abbrev hello_net : Network
hello_net = record {
  new_request_error = λ url. none;
  do_get = λ url headers.
      ok (serve hello_std hello_srv (λ s. s) hello_flags (request_for "GET" primary_path));
  latency = λ url. 1000;
}

abbrev hello : A2aAgent
hello = agent_at "hello" "http://hello/" (record zero_status { conditions = approved ∷ [] })

hello-Describes : Describes hello hello_flags
hello-Describes = record {
  name = λ _. refl;
  description = λ e. absurd (e refl);
  version = λ e. absurd (e refl);
  skills = (refl, tt);
}

reconcile_live-HelloAgent_example :
    EndsReady hello_std memory_client hello_net list_util 100 hello before
      (reconcile_live hello_std memory_client list_util hello_net 100 hello before)
unfolding check_url_conflict is_approved
reconcile_live-HelloAgent_example =
    reconcile_live-HelloAgent hello_std hello_srv (λ s. s) hello_flags hello_srv-LawfulA2asrv
      hello_net memory_client list_util 100 hello before hello-Describes
      (record { valid = refl; get = λ headers. (request_for "GET" primary_path, refl, refl, refl) })
      refl refl λ _. refl

abbrev api : Server
api = record { addr = ":8082"; discovery_config = discovery }

reconcile_registry-Run_example :
    Run ascii_std memory_client list_util 9 api before
      (memory_client.get_registry before.cluster
        (record { namespace = "outbound-agent"; name = "registry" }))
      (reconcile_registry ascii_std memory_client list_util 9
        (record { namespace = "outbound-agent"; name = "registry" })
        (some api)
        before).0
reconcile_registry-Run_example =
    reconcile_registry-Run ascii_std memory_client list_util 9 api
      (record { namespace = "outbound-agent"; name = "registry" }) before
