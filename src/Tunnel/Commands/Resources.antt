-- ===== src/Tunnel/Commands/Resources.antt =====
-- What a command of the tool does to the resources that it takes, and what it asks of the kernel.
use g_cn_testbed_k8s.Base.{
  ℕ, ◌≡◌, ◌⊎◌, refl, Bool, Bool-cases, Option-cases, inl, inr, true, false, List, [], ◌∷◌, ◌++◌,
  Option, none, some, Text, arith, if◌then◌else◌,
}
use g_cn_testbed_k8s.Tunnel.Attributes.{Attrs}
use g_cn_testbed_k8s.Tunnel.Parser.{Parsed, parsed, refused, out_of_fuel}
use g_cn_testbed_k8s.Tunnel.Commands.{
  Request, Event, mux_opened, mux_closed, conn_opened, conn_closed, requested, printed, reported,
  no_client, no_link, on_parsed, Run, Kernel, fails, with_mux, with_conn, with_client, with_link,
  only_send, send_and_print, send_and_report, target, with_options, with_target,
}

-- The life of the client: `asked` after the one request, `done` when the connection is closed.
pub data Phase : Type 0 where
  closed opened connected asked done : Phase

-- The events that the life allows; a request is made once and only while connected, and what was
-- opened is closed in the opposite order.
abbrev pub follow : Phase → Event → Option Phase
follow closed mux_opened = some opened
follow opened conn_opened = some connected
follow connected (requested r) = some asked
follow connected conn_closed = some done
follow asked (printed v) = some asked
follow asked (reported v) = some asked
follow asked conn_closed = some done
follow opened mux_closed = some closed
follow done mux_closed = some closed
follow _ _ = none

abbrev pub follow_all : Phase → List Event → Option Phase
follow_all p [] = some p
follow_all p (e ∷ l) = elim (follow p e) [ none ↦ none | some q ↦ follow_all q l ]

-- A run that begins and ends with everything closed.
abbrev pub IsClosed : Run → Type 0
IsClosed r = follow_all closed r.events ≡ some closed

-- A run inside a connection, up to its closing.
abbrev pub IsInside : Run → Type 0
IsInside r =
    (follow_all connected r.events ≡ some connected) ⊎ (follow_all connected r.events ≡ some asked)

-- A run between the opening and the closing of the other end.
abbrev IsOpen : Run → Type 0
IsOpen r = (follow_all opened r.events ≡ some opened) ⊎ (follow_all opened r.events ≡ some done)

follow_all-append :
    (p q : Phase) (l m : List Event)
    → follow_all p l ≡ some q
    → follow_all p (l ++ m) ≡ follow_all q m
follow_all-append p q [] m h = ground arith
follow_all-append p q (e ∷ l) m h = elim (Option-cases (follow p e)) [
  | inl x ↦ absurd (ground arith)
  | inr (r, x) ↦ ground (arith, follow_all-append r q l m)
]

module _ (kernel : Kernel) where
  with_conn-IsOpen : (body : Run) → IsInside body → IsOpen (with_conn kernel body)
  unfolding with_conn
  with_conn-IsOpen body h = elim (Bool-cases kernel.open_conn) [
    | inr f ↦ inl (ground arith)
    | inl t ↦ elim h [
      | inl e ↦
          inr
            (ground (arith, follow_all-append connected connected body.events (conn_closed ∷ []) e))
      | inr e ↦
          inr (ground (arith, follow_all-append connected asked body.events (conn_closed ∷ []) e))
    ]
  ]

  with_mux-IsClosed : (body : Run) → IsOpen body → IsClosed (with_mux kernel body)
  unfolding with_mux
  with_mux-IsClosed body (inl e) =
      ground (arith, follow_all-append opened opened body.events (mux_closed ∷ []) e)
  with_mux-IsClosed body (inr e) =
      ground (arith, follow_all-append opened done body.events (mux_closed ∷ []) e)

  inside : (b : Bool) (body : Run) → IsInside body → IsInside (if b then body else fails no_client)
  inside true body h = h
  inside false body h = inl refl

  pub with_client-IsClosed : (body : Run) → IsInside body → IsClosed (with_client kernel body)
  unfolding with_client
  with_client-IsClosed body h =
      with_mux-IsClosed _ (with_conn-IsOpen _ (inside kernel.new_client body h))

  linked :
      (link : Option ℕ) (body : ℕ → Run)
      → ((n : ℕ) → IsInside (body n))
      → IsInside (elim link [ none ↦ fails no_link | some n ↦ body n ])
  linked none body h = inl refl
  linked (some n) body h = h n

  with_link-IsClosed :
      (ifname : Text) (body : ℕ → Run)
      → ((n : ℕ) → IsInside (body n))
      → IsClosed (with_link kernel ifname body)
  unfolding with_link
  with_link-IsClosed ifname body h = with_client-IsClosed _ (linked (kernel.get_link ifname) body h)

  pub send-IsInside : (r : Request) → IsInside (only_send kernel r)
  unfolding only_send
  send-IsInside r = inr refl

  pub report-IsInside : (r : Request) → IsInside (send_and_report kernel r)
  unfolding send_and_report
  report-IsInside r = inr refl

  pub print-IsInside : (r : Request) → IsInside (send_and_print kernel r)
  unfolding send_and_print
  print-IsInside r = inr (ground arith)

  options-IsClosed :
      (t : Text × List ℕ × List Text) (a : Parsed Attrs) (body : ℕ → List ℕ → Attrs → Run)
      → ((link : ℕ) (oid : List ℕ) (attrs : Attrs) → IsInside (body link oid attrs))
      → IsClosed (on_parsed a λ attrs. with_link kernel t.0 λ link. body link t.1 attrs)
  options-IsClosed t (parsed attrs) body h = with_link-IsClosed t.0 _ (λ n. h n t.1 attrs)
  options-IsClosed t (refused why) body h = refl
  options-IsClosed t out_of_fuel body h = refl

  target-IsClosed :
      (t : Parsed (Text × List ℕ × List Text)) (body : Text × List ℕ × List Text → Run)
      → ((t : Text × List ℕ × List Text) → IsClosed (body t))
      → IsClosed (on_parsed t body)
  target-IsClosed (parsed t) body h = h t
  target-IsClosed (refused why) body h = refl
  target-IsClosed out_of_fuel body h = refl

  pub with_options-IsClosed :
      (parse : List Text → Parsed Attrs) (body : ℕ → List ℕ → Attrs → Run) (args : List Text)
      → ((link : ℕ) (oid : List ℕ) (attrs : Attrs) → IsInside (body link oid attrs))
      → IsClosed (with_options kernel parse body args)
  unfolding with_options
  with_options-IsClosed parse body args h =
      target-IsClosed (target args) _ (λ t. options-IsClosed t (parse t.2) body h)

  pub with_target-IsClosed :
      (body : ℕ → List ℕ → Run) (args : List Text)
      → ((link : ℕ) (oid : List ℕ) → IsInside (body link oid))
      → IsClosed (with_target kernel body args)
  unfolding with_target
  with_target-IsClosed body args h =
      target-IsClosed (target args) _ (λ t. with_link-IsClosed t.0 _ (λ n. h n t.1))
