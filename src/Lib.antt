-- ===== src/Lib.antt =====
-- PacketRusher's simulated gNodeBs and UEs with their tools: a model of the control plane, of the
-- concealment of the SUPI and of the tool for the tunnel's rules, and what holds of it.
--
-- The program (PacketRusher/internal/control_test_engine) simulates UEs and gNodeBs against a 5G
-- core. A UE runs a loop (ue/ue.go) over the requests of a scenario and the messages of its gNodeB;
-- NAS messages that it receives are checked, deciphered and dispatched (ue/nas/dispatcher.go) to a
-- handler (ue/nas/handler), which answers through a trigger (ue/nas/trigger) that protects the
-- message (ue/nas/message/nas_control) and sends it on a channel to the gNodeB. The gNodeB keeps its
-- UEs, AMFs and downlink TEIDs in pools (gnb/context), takes a new UE on its inbound channel
-- (gnb/nas/service), forwards NAS in both directions, and handles the NGAP messages of its AMFs
-- (gnb/ngap/dispatcher.go, gnb/ngap/handler.go, gnb/ngap/trigger). A UE names itself by a SUCI, which
-- conceals its SUPI (PacketRusher/internal/common/sidf). A command line tool
-- (PacketRusher/internal/cmd/gogtp5g-tunnel) writes the rules of the kernel's GTP tunnel: it finds a
-- command in a tree, parses an object id and options into netlink attributes, and asks the kernel.
-- Scenarios (PacketRusher/internal/common/tools) create gNodeBs, run one loop for each UE that tells it
-- what to do, and trigger handovers.
--
-- Paths below are relative to PacketRusher/internal/control_test_engine, if they do not start with
-- PacketRusher; a function has the name of its Go original in lower case.
--
--   Base: lists and maps over the native numbers, Boolean tests, Go strings as lists of bytes, and
--   `Result`: a Go function returns, leaves by log.Fatal, panics, or waits for ever.
--   Plmn: the PLMN octets of gnb/context/context.go, gnb/context/amf.go and ue/context/context.go,
--   and the routing indicator. Plmn.Octets and Plmn.Routing have their theorems.
--   Gnb.State: the structs of gnb/context. A pointer is the key of a heap in the state, so that two
--   pools that hold the same pointer share the object; a channel and an SCTP association are
--   numbers; what is sent is put in front of the list `sent`.
--   Gnb.Amf, Gnb.Ue: the methods of gnb/context/amf.go and gnb/context/ue.go.
--   Gnb.Pools: the pools of gnb/context/context.go: NewGnBUe, NewGnBAmf, the selection of an AMF,
--   TEIDs, DeleteGnBUe. Gnb.Pools.Paging has the list of paged UEs.
--   Gnb.Ngap: the information elements as decoded, the senders that handlers share, and in its
--   children one module per group of handlers: Transport (downlink NAS, session release, context
--   release, error indication), Setup (initial context), Resource (session setup), Amf (NG setup),
--   Update (AMF configuration update), Status (AMF status indication), Switch, HandoverRequest and
--   Mobility (handovers), Page (paging), Dispatch (gnb/ngap/dispatcher.go).
--   Gnb.Nas: gnb/nas/service, gnb/nas/handler and gnb/nas/dispatcher.go.
--   Ue.State, Ue.Sessions, Ue.Auth: the structs of ue/context/context.go, its table of PDU sessions,
--   and its authentication and keys with PacketRusher/internal/common/auth.
--   Ue.Encode: EncodeNasPduWithSecurity and NASEncode of
--   ue/nas/message/nas_control/integrity-ciphering-nas.go, and the flags of the PDU sessions.
--   Ue.Trigger, Ue.Handler, Ue.Dispatch: ue/nas/trigger, ue/nas/handler and ue/nas/dispatcher.go;
--   Ue.Message has the decoded downlink messages.
--   Ue.Manager: the loop of NewUE in ue/ue.go with ueMgrHandler, gnbMsgHandler and verifyPaging.
--   Strconv: what the code uses of Go's strconv and strings packages: ParseUint, Atoi, Cut, Split and
--   HasPrefix. Strconv.Digits and Strconv.Bounds have lemmas on them.
--   Tunnel: PacketRusher/internal/cmd/gogtp5g-tunnel. Tunnel.Parser is cmd.go's token parser and the
--   loop of the option parsers; Tunnel.Oid is oid.go, Tunnel.FlowDesc flowdesc.go; Tunnel.Pdr,
--   Tunnel.Far and Tunnel.Qer are ParsePDROptions, ParseFAROptions and ParseQEROptions, one function for
--   each case of their switch; Tunnel.Commands has the functions CmdAddPDR to CmdListURR, as the events
--   of a run and how it ends; Tunnel.Tree is cmd.go's search, cmdtree.go and main.go.
--   Sidf: PacketRusher/internal/common/sidf. Sidf.Regexp is a backtracking matcher for the patterns,
--   Sidf.Suci has them with ParseSuci, Sidf.Tbcd is Tbcd, Sidf.Ecies has key derivation, encryption and
--   decryption of both profiles, Sidf.Conceal is CipherSuci and ToSupi, Sidf.Mobile is EncodeSuci of
--   ue/context/context.go.
--   Scenario: PacketRusher/internal/common/tools/tools.go. Scenario.Numbers has 64-bit integers with a sign
--   and their printing, Scenario.Msin is IncrementMsin and gnbIdGenerator, Scenario.Simulation is
--   SimulateSingleUE, with what it does before its loop and one turn for each event that the loop
--   selects, and Scenario.Gnbs is CreateGnbs and IncrementIP. Whether the old gNodeB of a handover knows
--   the UE, and whether its message can be sent, is said by the event.
--   Examples: concrete runs.
--
-- Libraries are parameters: `Env` (the NGAP encoder and decoders and SCTP), `NasEnv` and `Decoder`
-- (the NAS codec, its ciphers and its counts), `Crypto` (Milenage and the key derivation), and the
-- answers of the gNodeB in the events of the UE's loop; for the tool `Net` (ParseIP and ParseCIDR) and
-- `Kernel` (the netlink connection, the link of an interface and the answers of the kernel); for the
-- SUCI the `Crypto` of Sidf.Ecies (the curves, SHA-256, HMAC and AES in counter mode), with the
-- ephemeral key that is generated as an argument; for scenarios the `Net` of Scenario.Gnbs. Where a theorem needs what a library documents it
-- says so in its hypotheses: `IsCounter` for a NAS count, `IsCrypto` for the crypto packages. The
-- constants of the gtp5g library are those of PacketRusher/lib/gtp5g/include/genl_pdr.h, and octets of
-- ports are those of a little-endian machine.
--
-- Integers: 32-bit TEIDs and the counters of ids wrap around in the model as in Go; octets are
-- numbers, and a theorem that needs them below 256 has that as a hypothesis. The option
-- parsers of the tool run on fuel, one round for each argument and one more, as each round takes an
-- argument; the width in which a number is printed is looked for in 64 rounds, as a 64-bit integer has
-- no more digits. The other loops go over lists, over the 16 places of the tables of sessions, or over a
-- count that the program itself bounds; loops without an end (those of the UE and of the gNodeB) are
-- given as what one turn does, and their theorems hold for every turn.
--
-- Concurrency: a handler runs as one step. The lock of the paging list is a flag of the state, and
-- the goroutine that expires a paged UE is a step of its own; the timers of a PDU session are the
-- list of those that run. Races between handlers of different associations are not
-- modelled. A timer of a scenario is an event that may come at any time after it is set. A state is
-- that of one gNodeB: with CopyFromPreviousContext a UE shares its sessions with that of the old
-- gNodeB, and the model copies them, so what PathSwitchRequestAcknowledge later sets in a session, the
-- uplink TEID and the address, does not show on the old side.
--
-- Not modelled: the codecs of NAS and NGAP and the functions that fill their structures
-- (gnb/ngap/message/ngap_control, ue/nas/message/nas_control/mm_5gs), except what they are given;
-- SCTP sockets, the kernel module (PacketRusher/lib/gtp5g) and the tool that makes its link
-- (PacketRusher/internal/cmd/gogtp5g-link); the configuration (PacketRusher/config); logging; the
-- simulated core under PacketRusher/test; and what the repository has beside PacketRusher (charts,
-- scripts and a viewer, which are not Go).
pub mod Base
pub mod Strconv
pub mod Plmn
pub mod Gnb
pub mod Ue
pub mod Tunnel
pub mod Sidf
pub mod Scenario
pub mod Examples
