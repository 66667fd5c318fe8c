-- ===== src/Tunnel/FlowDesc/Finishing.antt =====
-- Reading a flow description is never for want of fuel.
use g_cn_testbed_k8s.Base.{Bool, true, false, List, [], ◌∷◌, Option, Text, if◌then◌else◌}
use g_cn_testbed_k8s.Tunnel.Parser.{Parsed, parsed, refused, Refusal, or_refuse, Net, ◌>>=◌}
use g_cn_testbed_k8s.Tunnel.Parser.Rounds.{Ends, Ends-bind, or_refuse-Ends}
use g_cn_testbed_k8s.Tunnel.FlowDesc.{
  parse_flow_desc, flow_head, flow_end, next_field, parse_direction, parse_protocol, require,
}

-- A parser that is never for want of fuel.
pub record Finishes {ℓ} {A : Type ℓ} (m : Parsed A) : Type 0 where
  pub ends : Ends (λ _. Unit) m

bind-Finishes {ℓ κ} :
    {A : Type ℓ} {B : Type κ} (m : Parsed A) (k : A → Parsed B)
    → Finishes m
    → ((a : A) → Finishes (k a))
    → Finishes (m >>= k)
bind-Finishes m k h f = record {
  ends = Ends-bind (λ _. Unit) (λ _. Unit) m k h.ends (λ a _. (f a).ends);
}

field-Finishes : (l : List Text) → Finishes (next_field l)
unfolding next_field
field-Finishes [] = record { ends = tt }
field-Finishes (t ∷ l) = record { ends = tt }

require-Finishes : (b : Bool) (why : Refusal) → Finishes (require b why)
require-Finishes true why = record { ends = tt }
require-Finishes false why = record { ends = tt }

option-Finishes {ℓ} : {A : Type ℓ} (why : Refusal) (o : Option A) → Finishes (or_refuse why o)
option-Finishes why o = record { ends = or_refuse-Ends why o }

value-Finishes {ℓ} : {A : Type ℓ} (a : A) → Finishes (parsed a)
value-Finishes a = record { ends = tt }

refused-Finishes {ℓ} : {A : Type ℓ} (why : Refusal) → Finishes {A = A} (refused why)
refused-Finishes why = record { ends = tt }

if-Finishes {ℓ} :
    {A : Type ℓ} (c : Bool) (x y : Parsed A)
    → Finishes x
    → Finishes y
    → Finishes (if c then x else y)
if-Finishes true x y h k = h
if-Finishes false x y h k = k

direction-Finishes : (t : Text) → Finishes (parse_direction t)
unfolding parse_direction
direction-Finishes t = search (if-Finishes, value-Finishes, refused-Finishes)

protocol-Finishes : (t : Text) → Finishes (parse_protocol t)
unfolding parse_protocol
protocol-Finishes t = search (if-Finishes, value-Finishes, option-Finishes)

pub flow-Finishes : (net : Net) (s : Text) → Finishes (parse_flow_desc net s)
unfolding parse_flow_desc flow_head flow_end
flow-Finishes net s =
    search
      (
        bind-Finishes, field-Finishes, require-Finishes, direction-Finishes, protocol-Finishes,
        option-Finishes, value-Finishes,
      )
      depth 60 fits 5000
