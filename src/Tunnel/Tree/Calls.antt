-- ===== src/Tunnel/Tree/Calls.antt =====
-- What the commands of the tool do, over all of them.
use g_cn_testbed_k8s.Base.{
  ℕ, ◌≡◌, refl, Option-cases, inl, inr, List, [], ◌∷◌, Option, none, some, Text, arith,
}
use g_cn_testbed_k8s.Tunnel.Attributes.{Attrs}
use g_cn_testbed_k8s.Tunnel.Parser.{
  Parsed, parsed, refused, out_of_fuel, bad_oid, or_refuse, ◌>>=◌, Net,
}
use g_cn_testbed_k8s.Tunnel.Oid.{parse_oid}
use g_cn_testbed_k8s.Tunnel.Commands.{
  Object, pdr, far, qer, urr, Request, create, update, remove, get_all, mux_opened, mux_closed,
  conn_opened, conn_closed, requested, Run, Kernel, with_link, with_client, with_mux, with_conn,
  only_send, target, with_options, on_parsed,
}
use g_cn_testbed_k8s.Tunnel.Commands.Termination.{options_of}
use g_cn_testbed_k8s.Tunnel.Commands.Resources.{
  IsClosed, with_client-IsClosed, with_options-IsClosed, with_target-IsClosed, send-IsInside,
  report-IsInside, print-IsInside,
}
use g_cn_testbed_k8s.Tunnel.Tree.{Verb, add, modify, delete, get, list, CmdFunc, call, call_verb}

verb-IsClosed :
    (kernel : Kernel) (net : Net) (v : Verb) (o : Object) (args : List Text)
    → IsClosed (call_verb kernel net v o args)
unfolding call_verb
verb-IsClosed kernel net add pdr args =
    with_options-IsClosed kernel _ _ args (λ l i a. send-IsInside kernel (create pdr l i a))
verb-IsClosed kernel net add far args =
    with_options-IsClosed kernel _ _ args (λ l i a. send-IsInside kernel (create far l i a))
verb-IsClosed kernel net add qer args =
    with_options-IsClosed kernel _ _ args (λ l i a. send-IsInside kernel (create qer l i a))
verb-IsClosed kernel net add urr args =
    with_options-IsClosed kernel _ _ args (λ l i a. send-IsInside kernel (create urr l i a))
verb-IsClosed kernel net modify pdr args =
    with_options-IsClosed kernel _ _ args (λ l i a. send-IsInside kernel (update pdr l i a))
verb-IsClosed kernel net modify far args =
    with_options-IsClosed kernel _ _ args (λ l i a. send-IsInside kernel (update far l i a))
verb-IsClosed kernel net modify qer args =
    with_options-IsClosed kernel _ _ args (λ l i a. send-IsInside kernel (update qer l i a))
verb-IsClosed kernel net modify urr args =
    with_options-IsClosed kernel _ _ args (λ l i a. report-IsInside kernel (update urr l i a))
verb-IsClosed kernel net delete pdr args =
    with_target-IsClosed kernel _ args (λ l i. send-IsInside kernel (remove pdr l i))
verb-IsClosed kernel net delete far args =
    with_target-IsClosed kernel _ args (λ l i. send-IsInside kernel (remove far l i))
verb-IsClosed kernel net delete qer args =
    with_target-IsClosed kernel _ args (λ l i. send-IsInside kernel (remove qer l i))
verb-IsClosed kernel net delete urr args =
    with_target-IsClosed kernel _ args (λ l i. report-IsInside kernel (remove urr l i))
verb-IsClosed kernel net get pdr args =
    with_target-IsClosed kernel _ args (λ l i. print-IsInside kernel (Request.get pdr l i))
verb-IsClosed kernel net get far args =
    with_target-IsClosed kernel _ args (λ l i. print-IsInside kernel (Request.get far l i))
verb-IsClosed kernel net get qer args =
    with_target-IsClosed kernel _ args (λ l i. print-IsInside kernel (Request.get qer l i))
verb-IsClosed kernel net get urr args =
    with_target-IsClosed kernel _ args (λ l i. print-IsInside kernel (Request.get urr l i))
verb-IsClosed kernel net list pdr args =
    with_client-IsClosed kernel _ (print-IsInside kernel (get_all pdr))
verb-IsClosed kernel net list far args =
    with_client-IsClosed kernel _ (print-IsInside kernel (get_all far))
verb-IsClosed kernel net list qer args =
    with_client-IsClosed kernel _ (print-IsInside kernel (get_all qer))
verb-IsClosed kernel net list urr args =
    with_client-IsClosed kernel _ (print-IsInside kernel (get_all urr))

-- Whatever fails, every command follows the life of its client: it asks the kernel at most once, only
-- while it is connected, prints only what follows the request, and closes all that it opened, the
-- connection before the multiplexer.
pub call-IsClosed :
    (kernel : Kernel) (net : Net) (f : CmdFunc) (args : List Text)
    → IsClosed (call kernel net f args)
unfolding call
call-IsClosed kernel net f args = verb-IsClosed kernel net f.verb f.object args

-- The request of a command with options, and what it rests on.
pub record Sends (kernel : Kernel) (net : Net) (o : Object) (args : List Text) (r : Run)
    : Type 0 where
  pub ifname : Text
  pub oid : Text
  pub options : List Text
  pub id : List ℕ
  pub attrs : Attrs
  pub link : ℕ
  pub reply : ℕ
  pub arguments : args ≡ ifname ∷ oid ∷ options
  pub read_id : parse_oid oid ≡ some id
  pub read_options : options_of net o options ≡ parsed attrs
  pub found_link : kernel.get_link ifname ≡ some link
  pub accepted : kernel.send (create o link id attrs) ≡ some reply
  pub trace :
      r.events
      ≡ mux_opened
        ∷ conn_opened
        ∷ requested (create o link id attrs)
        ∷ conn_closed
        ∷ mux_closed
        ∷ []

module _ (kernel : Kernel) (net : Net) (o : Object) where
  -- The run of the command, by what its parsers say.
  abbrev sent_id : Text → List ℕ → Parsed Attrs → Run
  sent_id ifname id a =
      on_parsed a λ attrs. with_link kernel ifname λ link. only_send kernel (create o link id attrs)

  abbrev sent : Text → List Text → Option (List ℕ) → Run
  sent ifname options i =
      on_parsed {A = Text × List ℕ × List Text}
        (or_refuse bad_oid i >>= λ id. parsed (ifname, id, options))
        λ t. sent_id t.0 t.1 (options_of net o t.2)

  link-Sends :
      (ifname oid : Text) (options : List Text) (id : List ℕ) (attrs : Attrs)
      → parse_oid oid ≡ some id
      → options_of net o options ≡ parsed attrs
      → (with_link kernel ifname λ link. only_send kernel (create o link id attrs)).failure ≡ none
      → Sends kernel net o
          (ifname ∷ oid ∷ options)
          (with_link kernel ifname λ link. only_send kernel (create o link id attrs))
  unfolding with_link with_client with_mux with_conn only_send
  link-Sends ifname oid options id attrs i a h = elim (Option-cases (kernel.get_link ifname)) [
    | inl e ↦ absurd (ground arith)
    | inr (link, e) ↦ elim (Option-cases (kernel.send (create o link id attrs))) [
      | inl x ↦ absurd (ground arith)
      | inr (reply, x) ↦ record {
        ifname = ifname;
        oid = oid;
        options = options;
        id = id;
        attrs = attrs;
        link = link;
        reply = reply;
        arguments = refl;
        read_id = i;
        read_options = a;
        found_link = e;
        accepted = x;
        trace = ground arith;
      }
    ]
  ]

  id-Sends :
      (ifname oid : Text) (options : List Text) (id : List ℕ) (a : Parsed Attrs)
      → parse_oid oid ≡ some id
      → options_of net o options ≡ a
      → (sent_id ifname id a).failure ≡ none
      → Sends kernel net o (ifname ∷ oid ∷ options) (sent_id ifname id a)
  id-Sends ifname oid options id (refused why) e f h = absurd (ground arith)
  id-Sends ifname oid options id out_of_fuel e f h = absurd (ground arith)
  id-Sends ifname oid options id (parsed attrs) e f h = link-Sends ifname oid options id attrs e f h

  given-Sends :
      (ifname oid : Text) (options : List Text) (i : Option (List ℕ))
      → parse_oid oid ≡ i
      → (sent ifname options i).failure ≡ none
      → Sends kernel net o (ifname ∷ oid ∷ options) (sent ifname options i)
  given-Sends ifname oid options none e h = absurd (ground arith)
  given-Sends ifname oid options (some id) e h =
      id-Sends ifname oid options id (options_of net o options) e refl h

  options-Sends :
      (args : List Text)
      → (with_options kernel
          (options_of net o)
          (λ link oid attrs. only_send kernel (create o link oid attrs))
          args).failure
        ≡ none
      → Sends kernel net o args (
          with_options kernel
            (options_of net o)
            (λ link oid attrs. only_send kernel (create o link oid attrs))
            args)
  unfolding with_options target
  options-Sends [] h = absurd (ground arith)
  options-Sends (x ∷ []) h = absurd (ground arith)
  options-Sends (ifname ∷ oid ∷ options) h = given-Sends ifname oid options (parse_oid oid) refl h

-- A command that adds a rule and does not fail was given an interface, an object id and options that
-- its parsers accept, found the interface's link, and has asked the kernel for just that rule, which
-- the kernel accepted; then it has closed the connection and the multiplexer.
pub call-Sends :
    (kernel : Kernel) (net : Net) (o : Object) (args : List Text)
    → (call kernel net (record { verb = add; object = o }) args).failure ≡ none
    → Sends kernel net o args (call kernel net (record { verb = add; object = o }) args)
unfolding call call_verb
call-Sends kernel net pdr args h = options-Sends kernel net pdr args h
call-Sends kernel net far args h = options-Sends kernel net far args h
call-Sends kernel net qer args h = options-Sends kernel net qer args h
call-Sends kernel net urr args h = options-Sends kernel net urr args h
