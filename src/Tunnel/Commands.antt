-- ===== src/Tunnel/Commands.antt =====
-- The commands of PacketRusher/internal/cmd/gogtp5g-tunnel: the functions `CmdAddPDR` to `CmdListURR`
-- of cmd_pdr.go, cmd_far.go, cmd_qer.go and cmd_urr.go. A run of a command is what it does, in order,
-- with how it ends; what is deferred is done last. The kernel and the netlink library are parameters.
pub mod Resources
pub mod Termination
use g_cn_testbed_k8s.Base.{
  ℕ, Bool, true, false, List, [], ◌∷◌, ◌++◌, Option, none, some, Text, if◌then◌else◌,
}
use g_cn_testbed_k8s.Tunnel.Attributes.{Attrs, end}
use g_cn_testbed_k8s.Tunnel.Parser.{
  Parsed, parsed, refused, out_of_fuel, Refusal, too_few_parameters, bad_oid, Net, or_refuse, ◌>>=◌,
  parse_options, CmdParser,
}
use g_cn_testbed_k8s.Tunnel.Oid.{parse_oid}
use g_cn_testbed_k8s.Tunnel.Far.{parse_far_options}
use g_cn_testbed_k8s.Tunnel.Pdr.{parse_pdr_options}
use g_cn_testbed_k8s.Tunnel.Qer.{parse_qer_options}

pub data Object : Type 0 where
  pdr far qer urr : Object

-- What the client library asks of the kernel: `CreatePDROID` and so on. A link is a number.
pub data Request : Type 0 where
  create update : Object → (link : ℕ) (oid : List ℕ) → Attrs → Request
  remove get : Object → (link : ℕ) (oid : List ℕ) → Request
  get_all : Object → Request

pub data Event : Type 0 where
  mux_opened mux_closed conn_opened conn_closed : Event
  requested : Request → Event
  printed : (reply : ℕ) → Event
  reported : (reply : Option ℕ) → Event

pub data Failure : Type 0 where
  invalid : Refusal → Failure
  stuck no_mux no_conn no_client no_link rejected not_marshalled : Failure

pub record Run : Type 0 where
  pub events : List Event
  pub failure : Option Failure

-- `send` is the kernel's answer to a request, or an error; `marshals` says whether an answer can be
-- written as JSON.
pub record Kernel : Type 0 where
  pub new_mux : Bool
  pub open_conn : Bool
  pub new_client : Bool
  pub get_link : Text → Option ℕ
  pub send : Request → Option ℕ
  pub marshals : ℕ → Bool

abbrev pub fails : Failure → Run
fails why = record { events = []; failure = some why }

-- The interface, the object id and the options behind them.
unfoldable pub target : List Text → Parsed (Text × List ℕ × List Text)
target (ifname ∷ oid ∷ options) =
    or_refuse bad_oid (parse_oid oid) >>= λ id. parsed (ifname, id, options)
target _ = refused too_few_parameters

abbrev pub on_parsed {ℓ} : {A : Type ℓ} → Parsed A → (A → Run) → Run
on_parsed (parsed a) body = body a
on_parsed (refused why) body = fails (invalid why)
on_parsed out_of_fuel body = fails stuck

-- `ParseURROptions`: every token is got, and none is looked at.
unfoldable pub parse_urr_options : List Text → Parsed Attrs
parse_urr_options args = parse_options (λ opt p (s : Attrs). parsed (p, s)) args end

module _ (kernel : Kernel) where
  unfoldable pub with_mux : Run → Run
  with_mux body =
      if kernel.new_mux
      then record body { events = mux_opened ∷ body.events ++ mux_closed ∷ [] }
      else fails no_mux

  unfoldable pub with_conn : Run → Run
  with_conn body =
      if kernel.open_conn
      then record body { events = conn_opened ∷ body.events ++ conn_closed ∷ [] }
      else fails no_conn

  -- The part that the commands have in common, up to the client.
  unfoldable pub with_client : Run → Run
  unfolding with_mux with_conn
  with_client body = with_mux (with_conn (if kernel.new_client then body else fails no_client))

  -- The same with the interface's link.
  unfoldable pub with_link : Text → (ℕ → Run) → Run
  unfolding with_client
  with_link ifname body =
      with_client (elim (kernel.get_link ifname) [ none ↦ fails no_link | some link ↦ body link ])

  -- `return gtp5gnl.CreatePDROID(...)`
  unfoldable pub only_send : Request → Run
  only_send r = record {
    events = requested r ∷ [];
    failure = elim (kernel.send r) [ none ↦ some rejected | some v ↦ none ];
  }

  -- The reply of a request printed as JSON.
  unfoldable pub send_and_print : Request → Run
  send_and_print r = elim (kernel.send r) [
    | none ↦ record { events = requested r ∷ []; failure = some rejected }
    | some v ↦
        if kernel.marshals v
        then record { events = requested r ∷ printed v ∷ []; failure = none }
        else record { events = requested r ∷ []; failure = some not_marshalled }
  ]

  -- The reports that come with a reply are printed also on an error.
  unfoldable pub send_and_report : Request → Run
  send_and_report r = record {
    events = requested r ∷ reported (kernel.send r) ∷ [];
    failure = elim (kernel.send r) [ none ↦ some rejected | some v ↦ none ];
  }

  -- A command with options, and one without.
  unfoldable pub with_options :
      (List Text → Parsed Attrs) → (ℕ → List ℕ → Attrs → Run) → List Text → Run
  unfolding target with_link
  with_options parse body args =
      on_parsed (target args)
        λ t. on_parsed (parse t.2) λ attrs. with_link t.0 λ link. body link t.1 attrs

  unfoldable pub with_target : (ℕ → List ℕ → Run) → List Text → Run
  unfolding target with_link
  with_target body args = on_parsed (target args) λ t. with_link t.0 λ link. body link t.1

  module _ (net : Net) where
    unfoldable pub cmd_add_pdr : List Text → Run
    unfolding with_options only_send
    cmd_add_pdr =
        with_options (parse_pdr_options net) λ link oid attrs. only_send (create pdr link oid attrs)

    unfoldable pub cmd_mod_pdr : List Text → Run
    unfolding with_options only_send
    cmd_mod_pdr =
        with_options (parse_pdr_options net) λ link oid attrs. only_send (update pdr link oid attrs)

    unfoldable pub cmd_add_far : List Text → Run
    unfolding with_options only_send
    cmd_add_far =
        with_options (parse_far_options net) λ link oid attrs. only_send (create far link oid attrs)

    unfoldable pub cmd_mod_far : List Text → Run
    unfolding with_options only_send
    cmd_mod_far =
        with_options (parse_far_options net) λ link oid attrs. only_send (update far link oid attrs)

  unfoldable pub cmd_add_qer : List Text → Run
  unfolding with_options only_send
  cmd_add_qer =
      with_options parse_qer_options λ link oid attrs. only_send (create qer link oid attrs)

  unfoldable pub cmd_mod_qer : List Text → Run
  unfolding with_options only_send
  cmd_mod_qer =
      with_options parse_qer_options λ link oid attrs. only_send (update qer link oid attrs)

  unfoldable pub cmd_add_urr : List Text → Run
  unfolding with_options only_send
  cmd_add_urr =
      with_options parse_urr_options λ link oid attrs. only_send (create urr link oid attrs)

  unfoldable pub cmd_mod_urr : List Text → Run
  unfolding with_options send_and_report
  cmd_mod_urr =
      with_options parse_urr_options λ link oid attrs. send_and_report (update urr link oid attrs)

  unfoldable pub cmd_delete_pdr : List Text → Run
  unfolding with_target only_send
  cmd_delete_pdr = with_target λ link oid. only_send (remove pdr link oid)

  unfoldable pub cmd_delete_far : List Text → Run
  unfolding with_target only_send
  cmd_delete_far = with_target λ link oid. only_send (remove far link oid)

  unfoldable pub cmd_delete_qer : List Text → Run
  unfolding with_target only_send
  cmd_delete_qer = with_target λ link oid. only_send (remove qer link oid)

  unfoldable pub cmd_delete_urr : List Text → Run
  unfolding with_target send_and_report
  cmd_delete_urr = with_target λ link oid. send_and_report (remove urr link oid)

  unfoldable pub cmd_get_pdr : List Text → Run
  unfolding with_target send_and_print
  cmd_get_pdr = with_target λ link oid. send_and_print (get pdr link oid)

  unfoldable pub cmd_get_far : List Text → Run
  unfolding with_target send_and_print
  cmd_get_far = with_target λ link oid. send_and_print (get far link oid)

  unfoldable pub cmd_get_qer : List Text → Run
  unfolding with_target send_and_print
  cmd_get_qer = with_target λ link oid. send_and_print (get qer link oid)

  unfoldable pub cmd_get_urr : List Text → Run
  unfolding with_target send_and_print
  cmd_get_urr = with_target λ link oid. send_and_print (get urr link oid)

  unfoldable pub cmd_list_pdr : List Text → Run
  unfolding with_client send_and_print
  cmd_list_pdr args = with_client (send_and_print (get_all pdr))

  unfoldable pub cmd_list_far : List Text → Run
  unfolding with_client send_and_print
  cmd_list_far args = with_client (send_and_print (get_all far))

  unfoldable pub cmd_list_qer : List Text → Run
  unfolding with_client send_and_print
  cmd_list_qer args = with_client (send_and_print (get_all qer))

  unfoldable pub cmd_list_urr : List Text → Run
  unfolding with_client send_and_print
  cmd_list_urr args = with_client (send_and_print (get_all urr))
