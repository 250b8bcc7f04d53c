-- ===== src/Lib.antt =====
-- A model of flxc1000-rpi, an ECU simulator on a Raspberry Pi that answers UDS requests over DoIP,
-- with proofs.
--
-- The parts of the program and how they interact:
--   flxc1000-init is process 1. It waits for the partitions of the card, mounts them, and executes
--   the application or the bootloader, as the file /data/boot_state says.
--   flxc1000-app and flxc1000-boot are these two. Each runs a DoIP server, takes the UDS requests
--   from its channel one by one, and answers them by a UDS server of the crate ace-server. The
--   application asks for the bootloader by writing that file and executing /init again.
--   flxc1000-doip is the DoIP server: it announces the vehicle over UDP, and on a TCP connection it
--   cuts frames out of what it reads, activates the routing, and passes diagnostic messages on.
--   flxc1000-uds is an implementation of sessions, security access and dispatch that stands beside
--   the other crates; it is no member of the workspace of Cargo.toml.
--
-- Which file models which part:
--   Prelude, Bytes and Text model no code: shared names, fixed-width numbers and texts.
--   Doip/Header and Doip/Message: flxc1000-doip/src/header.rs and message.rs, a module for each
--   kind of message.
--   Doip/Connection: flxc1000-doip/src/connection.rs. `Action` is the state of a connection with a
--   log of what it wrote and forwarded, `Process` the function process_tcp_data and its handlers,
--   `Loop` the turns of the select loop in handle_connection. `Framing` and `Total` hold the proofs
--   about frames, `Activation` and `Wire` those about runs, `Exchange` and `Dialogue` those about
--   diagnostic messages and their answers.
--   Doip/Server: flxc1000-doip/src/server.rs, with get_mac_address in `Mac`, and `run`, the two
--   tasks and those of the connections in `Tasks`. `Form` describes an address as the kernel writes
--   it; `Laws`, `Address` and `Runs` hold the proofs.
--   Uds/Nrc, Uds/Session, Uds/Security, Uds/Dispatcher: the files of flxc1000-uds/src with these
--   names, each with its proofs in child modules. `Dispatcher/History` describes the security
--   access by the requests and answers alone, `Dispatcher/Runs` are the runs of a dispatcher, and
--   `Dispatcher/Access` says what lets a request through to the service handler.
--   Ace: what the main loops of flxc1000-app/src/main.rs and flxc1000-boot/src/main.rs use of the
--   crate ace-server, with the loops themselves in `Loop` and `Extend` and the calls of its builder in `Config`.
--   Init: flxc1000-init/src/main.rs. `Wait` and `Decision` hold the proofs.
--   Exec: how the three programs execute one another, with `execve` as a parameter.
--   App: flxc1000-app/src/main.rs. `Handler` holds the hooks for data identifiers and the reset,
--   `Routine` the self test and its hook (its children hold the proofs), `DtcServices` the services
--   0x14 and 0x19, `Turn` a turn of the main loop, `Config` the configuration of the UDS server,
--   `Network` and `Leds` the interface and the LEDs, `Identity` the announcement. `Hooks` says what
--   the UDS server may change; `Memory` and `Vin` hold the proofs about what is kept.
--   Boot: flxc1000-boot/src/main.rs, its hooks and its security provider, `Turn` a turn of its main
--   loop, `Config` the configuration. `Transfer`, `Security` and `Hooks` hold the proofs.
--   Diagnosis: a connection of flxc1000-doip with the application behind its channel.
--   Service: all connections of flxc1000-doip with a main loop behind the channel that they share.
--   `Answers`, `History` and `Dtcs` hold the proofs about its runs.
--   The modules named Tests hold concrete runs.
--
-- How code becomes definitions:
--   A function keeps its name, and a Rust module or type its own namespace. A method with `&mut
--   self` takes the state and gives the new one back. Numbers are natural numbers, and the width
--   of a field stands beside it; arithmetic on a u8 wraps, as in the release profile. Byte slices
--   are lists of numbers, and texts lists of code points.
--   Times are nanoseconds. Clock readings, and the entropy of a seed, are arguments.
--   The peer of a connection and the UDS side behind its channel are functions of all that the
--   connection did before (`Env`), so they may answer in any way and fail at any point.
--   The UDS server of ace-server is a record of functions. Where a theorem depends on how it uses
--   the handler, its hypothesis is that it changes the handler's state by the hooks only, one reset
--   at most for a request and none from its timers.
--   The self test is a relation between states in which the steps of its threads, the parts of a
--   call of a hook and all else that the main loop does come in any order; each step of a thread
--   accesses the shared status once. The tasks of
--   the DoIP server are such a relation too, with one step for a turn of a loop. What is done to
--   the pins is a log, and whether a pin can be had is a function of it. Dropping the handle of a
--   pin gives the pin back and is not relied on to change its level: a pin counts as lit until
--   something drives it low. The sleeps and the calls of `ip` that configure the network are a list.
--   In `Service` a step is one frame of one connection, with the turn of the main loop that it leads
--   to: a connection waits for its answer before it takes its next frame, and all else that a frame
--   does is its connection's own, so what is written, forwarded and answered is the same. How long
--   a request waits in the channel, and whether it is ever taken, is not told by these runs.
--
-- Fuel: process_tcp_data has one round more than there are bytes, and every round takes eight bytes
-- at least; wait_for_mmc_partitions has 101 rounds, of which each but the last sleeps for a
-- hundredth of the timeout. That this is enough is proved. The wait for a network interface is a
-- counted loop. All else is structural recursion.
--
-- What is not modelled: sockets and tokio, of which the steps of the server take what they deliver;
-- log output; the calls of mount and ip, of which only the order and the arguments are kept; when rppal
-- gives a pin, which is a parameter; the crate ace-server; the Buildroot tree and the scripts.
pub mod Prelude
pub mod Bytes
pub mod Text
pub mod Ace
pub mod Doip
pub mod Uds
pub mod Init
pub mod Exec
pub mod App
pub mod Boot
pub mod Diagnosis
pub mod Service
