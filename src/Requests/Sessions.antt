-- ===== src/Requests/Sessions.antt =====
-- SessionManager (server/session.go). `Info` stands for ClientInfo, and the text of a time is what
-- `time.Now().Format` gives for the layout of seconds: its other two layouts have no field of a time,
-- so they give themselves. The metadata of a session, which nothing reads, is left out.
use Prim.Native.String.{◌++◌ as join}
use gomcp.Prelude.{
  ℕ, ◌+◌, Bool, true, false, Option, none, some, List, [], String, Dict, lookup, insert, erase,
  string_key, ◌==◌, if◌then◌else◌, ◌||◌,
}

pub record SamplingCapabilities : Type 0 where
  pub supported : Bool
  pub text_support : Bool
  pub image_support : Bool
  pub audio_support : Bool

module _ {ℓ} (Info : Type ℓ) where
  pub record ClientSession : Type ℓ where
    pub id : String
    pub client_info : Info
    pub created : ℕ
    pub last_active : ℕ
    pub protocol_version : String
    pub resource_subscriptions : List String

  pub record SessionManager : Type ℓ where
    pub sessions : Dict String ClientSession
    pub next_id : ℕ

-- The sequence number is not used.
unfoldable pub generate_unique_id : ℕ → String → String
generate_unique_id id seconds = join seconds "-000000000-000000000000000"

module _ {ℓ} {Info : Type ℓ} where
  abbrev pub new_session_manager : SessionManager Info
  new_session_manager = record { sessions = []; next_id = 0 }

  unfoldable pub create_session :
      SessionManager Info → ℕ → String → Info → String → SessionManager Info × ClientSession Info
  create_session sm now seconds client_info protocol_version =
      let session : ClientSession Info = record {
        id = generate_unique_id (sm.next_id + 1) seconds;
        client_info = client_info;
        created = now;
        last_active = now;
        protocol_version = protocol_version;
        resource_subscriptions = [];
      } in
      (
        record sm {
          next_id = sm.next_id + 1;
          sessions = insert (generate_unique_id (sm.next_id + 1) seconds) session sm.sessions;
        },
        session,
      )

  unfoldable pub get_session : SessionManager Info → String → Option (ClientSession Info)
  get_session sm id = lookup id sm.sessions

  abbrev touched : ℕ → ClientSession Info → ClientSession Info
  touched now session = record session { last_active = now }

  unfoldable pub update_session :
      SessionManager Info
      → ℕ
      → String
      → (ClientSession Info → ClientSession Info)
      → SessionManager Info × Bool
  update_session sm now id update = elim (lookup id sm.sessions) [
    | none ↦ (sm, false)
    | some session ↦
        (record sm { sessions = insert id (touched now (update session)) sm.sessions }, true)
  ]

  -- The event of the closed session is left out.
  unfoldable pub close_session :
      SessionManager Info → String → SessionManager Info × Option (ClientSession Info)
  close_session sm id = elim (lookup id sm.sessions) [
    | none ↦ (sm, none)
    | some session ↦ (record sm { sessions = erase id sm.sessions }, some session)
  ]

unfoldable pub detect_client_capabilities : String → SamplingCapabilities
detect_client_capabilities protocol_version =
    if protocol_version == "draft" || protocol_version == "2025-03-26"
    then record {
      supported = true;
      text_support = true;
      image_support = true;
      audio_support = true;
    }
    else if protocol_version == "2024-11-05"
    then record {
      supported = true;
      text_support = true;
      image_support = true;
      audio_support = false;
    }
    else record {
      supported = true;
      text_support = true;
      image_support = false;
      audio_support = false;
    }
