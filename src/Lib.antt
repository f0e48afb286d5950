-- ===== src/Lib.antt =====
-- ns3_cosim: a gateway that lets a remote server drive an ns-3 simulation (model/gateway.cc), an
-- application that sends packets on request (model/triggered-send-application.cc) and a mobility
-- model that is set from outside (model/external-mobility-model.cc).
--
-- How the parts interact. A server sends messages "seconds nanoseconds v1 .. vn" over a TCP
-- connection. The thread that Gateway::Connect starts (Gateway::RunThread) cuts the byte stream into
-- messages, queues them and schedules Gateway::ForwardUp. The main thread runs the simulator's events:
-- ForwardUp takes one message off the queue, reads the timestamp and schedules DoInitialize or
-- HandleUpdate; WaitForNextUpdate schedules itself at the current time and so keeps the simulated time
-- from passing on. The derived class answers with SetValue and SendResponse. The program
-- examples/simple-gateway-server.cc is such a server, and examples/simple-gateway.cc a simulation that
-- it drives.
--
-- Files:
--   Common       shared names: Boolean tests, lists over the native numbers, signed integers, results
--                of code that can fail.
--   Text         std::string as a list of bytes: find (Text, Text/Find, Text/Border), std::stoi,
--                std::stol and std::to_string (Text/Number, Text/Decimal).
--   Protocol     the loops of Gateway::SendResponse and Gateway::ForwardUp that join and split a
--                message. Split and RoundTrip hold their laws.
--   Simulator    ns-3's Simulator as a record of operations and laws, since ns-3 is not part of the
--                repository. Queue holds lemmas on lists of events, and Clock an instance that meets
--                the laws.
--   Gateway      the class Gateway: its state, SetValue and SendResponse. Handlers holds the other
--                functions of the main thread, under the names connect, stop_gateway, wait_update,
--                forward and update; Values, Timestamps, Initial and Stopping hold their laws, and
--                Width compares the times of the model with the 64 bits of an ns-3 time.
--   CoSim        Gateway::RunThread (run_thread) and the two threads: Step is one step of either,
--                Reach the states that any interleaving reaches from where Connect returns. Stream
--                states the invariant; Sound, Held, Client, Main, Forward, Execute, Receive, Start and
--                Stop are about the steps and the invariant; Safety and Delivery are about the
--                reachable states. Updates, Quiet and Order follow the pending calls of HandleUpdate,
--                Progress and Exit the thread on its own. Contract tells without threads, queues and
--                events which calls of DoInitialize and DoUpdate the messages ask for; its children
--                compare that with the runs of Reach.
--   TriggeredSend  the class TriggeredSendApplication. Pending, Live and Lifecycle follow its pending
--                event through every sequence of calls, Burst and Request count what is sent, Start and
--                Binding are about StartApplication. Interrupt is about a send that another one interrupts, and
--                Example models Transmit and its calls in examples/triggered-send-example.cc.
--   Mobility     the class ExternalMobilityModel.
--   MobilityExample  UpdateMobility and the simulation of examples/external-mobility-example.cc. Moves
--                and Times follow one node and the calls that are pending for it, Steps and Run the two
--                nodes along a run, Ending and Limit the end of the simulation.
--   SimpleGateway  the class of examples/simple-gateway.cc, on top of Gateway and Mobility. Round,
--                Response, Effect, Moves and Actions are about its DoUpdate, Counts and Tally about
--                HandleReceive. Setup is the constructor and what main does up to Connect, Session
--                and Launch are about the callbacks behind that.
--   Server       examples/simple-gateway-server.cc: run_server is its main, serve the loop in it, and
--                next_message the message of an iteration. Message is about what a gateway reads,
--                Movement and Run about what the server sends, Bodies and Drive about the server and the
--                gateway together.
--   Example      the two threads where the derived class is SimpleGateway: Runs says what the events do
--                with the vehicles, with the calls of Send and the events of the network. Callback is
--                about one event, Driven about the vehicles along a run, Numbers and Placed about the server and the vehicles together.
-- The modules called Tests hold concrete runs.
--
-- How the code is represented. A function that changes an object takes and returns the object with the
-- simulator (`World`); NS_FATAL_ERROR and the failed aborts and assertions end the program and are the
-- outcome `fatal`. What a socket call returns, and what the pure virtual functions of the gateway do
-- (a list of `Action`s: calls of its public functions, Simulator::Schedule and Simulator::Stop), are
-- arguments, so each statement holds for every network and for every derived class that makes such
-- calls. m_messageQueueMutex makes the push and the pop of a message one step each. A call of
-- ScheduleWithContext is the step in which the simulator takes the event over. Stop waits in
-- m_thread.join, so it is two steps. The thread's first step comes after Connect has returned. With
-- the gateway the simulator may go on running events after Simulator::Stop in the model, which only
-- adds runs; the run of MobilityExample ends there.
--
-- Bounds and fuel. Times are whole nanoseconds without an upper limit. The splitting loop takes fuel,
-- one more than the length of the message: a round takes a delimiter, which is not empty, off the
-- message. int is 32 bits wide in std::stoi and long 64 bits in std::stol; a value that does not fit is
-- refused, as the library does by throwing. std::to_string takes ten digits as its fuel, as many as
-- a uint32_t has. The counts of SimpleGateway are 16 bits wide and its data index 32 bits, and so are
-- the positions and the time of the server. A piece that ::recv returns may have any length, so also
-- those up to the 4096 bytes of the buffer. The run of a triggered send takes as fuel the number of
-- events; one more than the number of packets is enough.
--
-- Not modelled: log output; the registration of the classes with ns-3; the address of the server and its
-- command line; in the main functions of the other examples, the network that ns-3's helpers install
-- and, for the triggered send, the applications; the results of ::close and the warning of the gateway
-- on a failed ::send.
pub mod Common
pub mod Text
pub mod Protocol
pub mod Simulator
pub mod Gateway
pub mod CoSim
pub mod Example
pub mod Mobility
pub mod MobilityExample
pub mod TriggeredSend
pub mod SimpleGateway
pub mod Server
