-- ===== src/Examples/Connect.antt =====
-- Connections at concrete inputs: the user `bob` holds no permission, and streams of type 3 require
-- `shell:*`.
use sandpolis.Prelude.{
  ℕ, ◌*◌, ◌^◌, ◌≡◌, ◌≢◌, refl, sym, subst, inl, inr, true, false, Option, none, some, List, [], ◌∷◌,
  In,
}
use sandpolis.Database.Revision.{latest}
use sandpolis.Database.Resident.{Row}
use sandpolis.Instance.Id.{is_type}
use sandpolis.Instance.Permission.{Permission, wildcard, same_string}
use sandpolis.Network.Message.{StreamMessage}
use sandpolis.Network.Relay.{Heap}
use sandpolis.Network.Registry.{Registry, new, dispatch}
use sandpolis.Server.User.{UserData, UserManager, Claims, users_configured}
use sandpolis.Server.User.Connect.{
  Headers, Accepted, upgraded, connect, accepted_registry, peer_is_server, is_agent, global_name,
}
use sandpolis.Server.User.Connect.Guarded.{client-refused, upgraded-shape}

abbrev bob : List ℕ
bob = 98 ∷ 111 ∷ 98 ∷ []

abbrev bob_row : Row UserData
bob_row = record {
  id = 5;
  revision = latest 1;
  content = record {
    username = bob;
    permissions = [];
    email = none;
    phone = none;
    expiration = none;
  };
}

abbrev shell : Permission
shell = record { layer = 115 ∷ 104 ∷ []; action = wildcard }

abbrev manager : UserManager
manager = record {
  users = λ realm. some ((5, bob_row) ∷ []);
  configs = λ realm. none;
  jwt_keys = λ realm. some (7 ∷ []);
  stream_permissions = λ type_tag. some (some shell);
  is_local = false;
}

abbrev decode : List ℕ → List ℕ → Option Claims
decode key token = some (record { sub = token; exp = 1000; perms = []; realm = 0 })

-- An instance id of a client, with bob's token.
abbrev headers : Headers
headers = record {
  instance_id = some 18;
  stratum = none;
  poll_schedule = none;
  poll_timeout = none;
  authorization = some (66 ∷ 101 ∷ 97 ∷ 114 ∷ 101 ∷ 114 ∷ 32 ∷ bob);
}

abbrev accepted : Accepted
accepted = record {
  remote_instance = some 18;
  poll = none;
  gated = some bob;
  accepts_advertisements = false;
  accepts_claims = false;
  pulls = none;
}

accepts_bob : connect decode manager 0 headers ≡ upgraded accepted
unfolding connect users_configured is_type
accepts_bob = refl

upgraded-shape_example :
    (same_string [] global_name ≡ false)
    × (accepted.accepts_advertisements ≡ peer_is_server headers)
    × (accepted.accepts_claims ≡ peer_is_server headers)
    × (manager.is_local ≡ true
        → (accepted.accepts_advertisements ≡ false)
          × (accepted.accepts_claims ≡ false)
          × (accepted.pulls ≡ none))
    × (accepted.pulls ≢ none
        → (accepted.pulls ≡ headers.instance_id) × (is_agent headers.instance_id ≡ true))
upgraded-shape_example = upgraded-shape decode manager 0 headers {a = accepted} accepts_bob

abbrev nowhere : Heap
nowhere a = none

abbrev message : StreamMessage
message = record { stream_id = 3 * 2 ^ 32; dst = none; hops = 0; payload = [] }

abbrev create : ℕ → ℕ
create f = f

abbrev registry : Registry ℕ ℕ
registry = new 1

client-refused_example :
    dispatch create nowhere (accepted_registry manager 0 accepted registry) none message ≡ record {
      registry = accepted_registry manager 0 accepted registry;
      relay = none;
      effects = [];
    }
unfolding users_configured is_type new
client-refused_example =
    client-refused decode manager 0 headers create nowhere registry none manager message
      {a = accepted} accepts_bob refl refl refl
      (λ c o (r, i, n, g, j, t). elim i [
        | inl e ↦ subst (λ (q : Row UserData). In g q.content.permissions) (sym e) j
        | inr b ↦ b
      ])
