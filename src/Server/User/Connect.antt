-- ===== src/Server/User/Connect.antt =====
-- The handler that accepts a connection (`connect` of sandpolis-server/src/user/server.rs): what a
-- peer says of itself, who is turned away, and what an accepted peer gets. The headers with an
-- instance id and a timeout are given as they parse, and the decoding of a token (with its signature
-- and expiry) is an argument. What the upgraded socket's task does is the record `Accepted`; making
-- the socket and its rows is not modelled.
pub mod Guarded
use sandpolis.Prelude.{
  ℕ, ◌*◌, Bool, true, false, not, ◌&&◌, ◌||◌, Option, none, some, List, [], ◌∷◌, any, length, leb,
  ◌==◌, ◌>>=◌, if◌then◌else◌,
}
use sandpolis.Prelude.Maps.{Table, Assoc}
use sandpolis.Database.Resident.{Row}
use sandpolis.Instance.Id.{is_type, agent, server}
use sandpolis.Instance.Permission.{Permission, same_string, grants}
use sandpolis.Network.Registry.{Registry, set_gate, set_relay}
use sandpolis.Server.Liveness.Schedule.{PollAnnouncement, max_schedule_len, or_zero}
use sandpolis.Server.User.{or_empty, second, UserData, UserManager, Claims, users_configured}

pub record Headers : Type 0 where
  pub instance_id : Option ℕ
  pub stratum : Option (List ℕ)
  pub poll_schedule : Option (List ℕ)
  pub poll_timeout : Option ℕ
  pub authorization : Option (List ℕ)

-- `global` and `Bearer `.
abbrev pub global_name : List ℕ
global_name = 103 ∷ 108 ∷ 111 ∷ 98 ∷ 97 ∷ 108 ∷ []

abbrev pub bearer : List ℕ
bearer = 66 ∷ 101 ∷ 97 ∷ 114 ∷ 101 ∷ 114 ∷ 32 ∷ []

abbrev pub is_empty : List ℕ → Bool
is_empty [] = true
is_empty (c ∷ cs) = false

unfoldable pub strip_prefix : List ℕ → List ℕ → Option (List ℕ)
strip_prefix [] s = some s
strip_prefix (c ∷ cs) [] = none
strip_prefix (c ∷ cs) (d ∷ s) = if c == d then strip_prefix cs s else none

announced : Option (List ℕ) → Option ℕ → Option PollAnnouncement
announced none timeout = none
announced (some schedule) timeout =
    if not (is_empty schedule) && leb (length schedule) max_schedule_len
    then some (record { schedule = schedule; timeout = or_zero timeout * second })
    else none

-- `is_some_and(|id| id.is_server())`, and for agents.
abbrev pub is_server : Option ℕ → Bool
is_server none = false
is_server (some id) = is_type id server

abbrev pub is_agent : Option ℕ → Bool
is_agent none = false
is_agent (some id) = is_type id agent

abbrev pub peer_is_server : Headers → Bool
peer_is_server h = not (is_empty (or_empty h.stratum)) || is_server h.instance_id

abbrev pub peer_is_client : Headers → Bool
peer_is_client h = not (peer_is_server h) && not (is_agent h.instance_id)

holds : List ℕ → Permission → Row UserData → Bool
unfolding same_string grants any
holds username required r =
    same_string r.content.username username
    && any (λ granted. grants granted required) r.content.permissions

abbrev rows_of : Assoc (Row UserData) → List (Row UserData)
rows_of [] = []
rows_of ((k, r) ∷ rows) = r ∷ rows_of rows

live_user_holds : List ℕ → Permission → Option (Assoc (Row UserData)) → Bool
unfolding holds any
live_user_holds username required none = false
live_user_holds username required (some users) = any (holds username required) (rows_of users)

declared : List ℕ → Option (Assoc (Row UserData)) → Option (Option Permission) → Bool
unfolding live_user_holds
declared username users none = false
declared username users (some none) = true
declared username users (some (some required)) = live_user_holds username required users

-- The gate of a client, under the users of the moment at which it is asked.
unfoldable pub user_gate :
    Table (Option Permission) → List ℕ → Option (Assoc (Row UserData)) → ℕ → Bool
unfolding declared
user_gate stream_permissions username users tag = declared username users (stream_permissions tag)

-- What an accepted peer gets: the name whose permissions its streams are held against, whether it may
-- advertise and claim, and the instance whose rows are pulled.
pub record Accepted : Type 0 where
  pub remote_instance : Option ℕ
  pub poll : Option PollAnnouncement
  pub gated : Option (List ℕ)
  pub accepts_advertisements : Bool
  pub accepts_claims : Bool
  pub pulls : Option ℕ

pub data Response : Type 0 where
  unauthorized already_global upward_only : Response
  upgraded : Accepted → Response

module _ (decode : List ℕ → List ℕ → Option Claims) (m : UserManager) (realm : ℕ)
    (h : Headers) where
  -- Of the token and the realm's key.
  unfoldable pub token_claims : Option Claims
  unfolding strip_prefix
  token_claims = do
    value ← h.authorization
    token ← strip_prefix bearer value
    key ← m.jwt_keys realm
    decode key token

  abbrev pulled : Option ℕ
  pulled = if is_agent h.instance_id && not m.is_local then h.instance_id else none

  upgrade : Option (List ℕ) → Accepted
  unfolding announced
  upgrade gated = record {
    remote_instance = h.instance_id;
    poll = announced h.poll_schedule h.poll_timeout;
    gated = gated;
    accepts_advertisements = peer_is_server h;
    accepts_claims = peer_is_server h;
    pulls = pulled;
  }

  -- Past the token.
  admit : Option (List ℕ) → Response
  unfolding same_string upgrade
  admit gated =
      if same_string (or_empty h.stratum) global_name
      then already_global
      else if m.is_local && peer_is_server h
      then upward_only
      else upgraded (upgrade gated)

  with_claims : Option Claims → Response
  unfolding admit
  with_claims none = unauthorized
  with_claims (some c) = admit (some c.sub)

  unfoldable pub connect : Response
  unfolding token_claims with_claims admit
  connect =
      if peer_is_client h && users_configured m realm then with_claims token_claims else admit none

-- The registry of an accepted peer: its relay is set, and its gate where it has one.
module _ {H F : Type 0} where
  gated_registry :
      Table (Option Permission)
      → Option (Assoc (Row UserData))
      → Option (List ℕ)
      → Registry H F
      → Registry H F
  unfolding user_gate set_gate
  gated_registry permissions users none r = r
  gated_registry permissions users (some username) r =
      set_gate (user_gate permissions username users) r

  -- `users` are those of the moment at which the gate is asked.
  unfoldable pub accepted_registry : UserManager → ℕ → Accepted → Registry H F → Registry H F
  unfolding gated_registry set_relay
  accepted_registry m realm a r =
      gated_registry m.stream_permissions (m.users realm) a.gated (set_relay r)
