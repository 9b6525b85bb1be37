-- ===== src/Lib.antt =====
-- The programs of a repository of operating-system assignments in C++. Its parts are separate
-- programs. The largest is the simulated software-defined network of test2/: one controller and up
-- to seven switches, each a process that polls its descriptors in an endless loop. A switch reads
-- packets from a traffic file, looks them up in its flow table, asks the controller about
-- destinations it has no rule for (QUERY), installs the rule that comes back (ADD), and relays
-- packets to the switches at its two ports through FIFOs (RELAY). The controller keeps the table of
-- the switches that have announced themselves (OPEN, answered by ACK) and answers queries from it.
--
-- Assignment_1/2022F and Assignment_1/msh379.cpp are two shells that keep the processes they have
-- started.
--
-- Assignment_2/f22 is a producer thread and consumer threads over a bounded queue. Assignment_3 is
-- a server that runs transactions for several clients, and its client.
--
-- Which file models which part:
--   Common, Common/Tests, Common/Lists, Common/Int: names of the library passed on, Boolean
--     tests, lists and integers over the native numbers.
--   Text, Text/Number, Text/Number/Length, Text/Buffer, Text/Pieces: what the programs use of the
--     C++ library on text and numbers (`std::string`, `istream_iterator`, `getline`, `to_string`,
--     `stream >> int`, `strtol`). Texts are lists of bytes.
--   Sdn/Packet, with Parse, RoundTrip, Log: parsePacketMessage, parsePacketString, makeFifoName,
--     trim and printPacketMessage of test2/util.cpp, and the packet strings of controller.cpp and
--     switch.cpp.
--   Sdn/SwitchId: parseSwitchId of test2/util.cpp. Sdn/Args and Sdn/Address: parseIpRange and
--     main, and getAddressInfo, of test2/a3sdn.cpp. Args/IpRange and Args/Launched hold their
--     properties.
--   Process: how a run goes on (`running`), ends by exit (`exited`, with the code and what was
--     done) or does what C++ leaves undefined (`undefined`: an index out of range, an exception
--     nothing catches), the log of writes, prints and closes, and `std::map<int, int>`.
--     Process/Sent picks out the writes.
--   Sdn/Controller, with State and Loop: test2/controller.cpp. The record `Controller` holds the
--     variables of controllerLoop; `round` is the body of its `while (true)`, composed of
--     `keyboard`, `serve_slots` and `accept_switch` as in the source. Phases, Counts, Query, Buffer
--     and Accept hold its properties.
--   Sdn/Switch, with State, Table, Traffic and Loop: test2/switch.cpp in the same way;
--     `traffic_step` is step 1 of the loop, `keyboard` step 2, `serve_slots` step 3. Counts and
--     Traffic/Admit hold its properties.
--   Sdn/Network: the controller's answer as the switch takes it in. Sdn/Answers and Sdn/Exchange:
--     a query from the switch's traffic to the rule for it, through the controller. Sdn/Returned: a
--     RELAY packet through a switch.
--   Sdn/ControllerTests, Sdn/SwitchTests, Sdn/ExchangeTests, Sdn/ArgsTests: runs on concrete
--     inputs, and the theorems at such inputs.
--   Shell, with State, Jobs, Tasks and Child: Assignment_1/2022F. Commands.cpp (each command,
--     checkTokenSize, functions), Process.cpp (the map of tasks in Tasks, the parent of run in
--     Shell, its child in Child) and Shell.cpp (`step`, one round of main). Invariant and Commands
--     hold its properties, Tests its runs.
--   Msh, with Check: Assignment_1/msh379.cpp, which 2022W has a copy of. `round` is one round of
--     main, Check the tree walk over the output of ps. Tasks, Commands, Check and Descent hold its
--     properties, Tests its runs.
--   ProdCon, with State, Log and Main: Assignment_2/f22/main.cpp and outfile.cpp. `produce` and
--     `consume` are one step of a thread from one place of its code to the next, `ThreadStep` a
--     step of any thread, `Interleaving` a sequence of them. The section between lock and unlock is
--     one step, up to a wait in it, and the counters outside it are taken to be changed atomically.
--     A thread in `pthread_cond_wait` (`sleeping`, `parked`) goes back to the lock only when a step
--     of another thread signals or broadcasts (`Wake`, `Notified`, `notified`), or by a wake-up
--     without a reason (`Spurious`), which POSIX allows. Counts, Notices, Invariant, Sound, Places,
--     Told, Progress, Leaving and Lost hold its properties, Tests its runs.
--   A2w22, with Args, Controller and Psw: Assignment_2/w22, an earlier network over FIFOs, with
--     the same roles and its own messages. a2w22.cpp and a2w22.h are in A2w22 and Args; Controller
--     and Controller/Loop are controller.cpp; Psw, Psw/Traffic and Psw/Loop are switch.cpp. Frames
--     is what a reader finds in a FIFO, Messages the words of the messages, Directory the
--     specification of the controller without messages, which Directory/Serving and Directory/Runs
--     show it to implement. Psw/Table and Psw/Counts, Psw/Dropped and Route hold the properties of
--     the switches, Sizes the lengths of the messages, Network the way of a question to the
--     controller and back, Tests and NetworkTests the runs.
--   Draft, with Args, Master and Switch: test/, an unfinished version of test2 (general.cpp,
--     a3w22.cpp, master.cpp, switch.cpp). Master/Loop and Switch/Loop hold the loops,
--     Switch/Traffic and Switch/Packets their parts, Master/Asked and Switch/Delayed the
--     properties, Tests the runs.
--   Transaction, with Server, Server/State and Client: Assignment_3/server.cpp and client.cpp.
--     `Server.round` is the body of the server's loop (`accept_client`, then `serve_places`),
--     `Client.command` that of the client's. Server/Sums, Server/Counts, Exchange and Session, with
--     Lines and Runs, hold their properties, Tests and SessionTests their runs.
--
-- What is outside the process is an argument: what `poll` reports and `read` brings for each slot,
-- whether `write` succeeds, the descriptor or errno of `open`, `accept` and `fcntl`, the clock, and
-- the resolver. So a theorem about a run of several rounds holds for every behaviour of these
-- calls. A loop of rounds is a function of the list of what the rounds bring. A failed `read` (-1)
-- leaves the buffer alone and is handled like a packet, as in the source.
--
-- Bounds: an `int` that is parsed has 32 bits (`IsInt`), `(int) strtol(...)` wraps around as on a
-- 64-bit `long`; counters are unbounded, since overflow of an `int` is undefined in C++. There is
-- fuel in parse_packet_message, one more than the length of the text since each round reads a byte
-- at least, in the tree walk of check, one more than the number of processes, and in the printing
-- of numbers. A `char` is taken as its code, which is right up to 127. `errno` is taken to be 0
-- when a traffic line is parsed, and the exit code of `exit(errno)` behind the controller's end of
-- file is taken to be 0.
--
-- Not modelled: the CPU limits that two programs set, what perror writes to stderr, the *temp files
-- of test, which do not compile, the C routines of tands.c (a busy loop and a sleep), which are
-- events of a run, and testPrgm.cpp, a program for a shell to start. In Assignment_2/f22 the races
-- on the counters outside the lock, and the clock of general.cpp, whose readings are arguments.
pub mod Common
pub mod Text
pub mod Process
pub mod Sdn
pub mod Shell
pub mod Transaction
pub mod ProdCon
pub mod Msh
pub mod A2w22
pub mod Draft
