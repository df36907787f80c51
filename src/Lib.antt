-- ===== src/Lib.antt =====
-- The elevator system of assignment2: a car (car.c), the controller that dispatches cars
-- (controller.c), the call pad of a floor (call.c), the panel inside a car (internal.c) and the
-- safety system of a car (safety.c). The programs of one car share a record of memory under a mutex
-- (shared.h, `car_shared_mem`); the car and the call pads talk to the controller over sockets.
--
-- Which file models which part:
--   Shared, Shared/Memory, Shared/Floors, Shared/Wire: assignment2/shared.h, with
--     `validate_floor_input`, `send_message` and `receive_msg`. A byte is its number, a text is the
--     list of its bytes before the NUL, a flag is the number of its `uint8_t`.
--   Car/Floors, Car/Clock, Car/Elevator, Car/Emergency, Car/Service, Car/Normal, Car/Loop:
--     assignment2/car.c, `elevator_loop`. A round is `round`: it tests the deadline, waits, and
--     runs `handle`, which is the body behind the wait in the mode of the car. What other programs
--     did to the memory during the wait is an input of the round (`Wake`), and so are the clocks
--     (`Env`). The writes to the pipe, the readings of the clock and the broadcasts are counted.
--   Car/Connection: the inner loop of `controller_connection` in car.c, one round at a time, on
--     what `poll`, `receive_msg` and `read` return.
--   Car/Attempts: its outer loop, from the socket to the end of a connection, with what the calls
--     of the system return as input. A failed `write` ends the program: there the texts of the
--     connection are cut off, so that the rounds of Car/Connection take it that their writes
--     succeed.
--   Monitor: `monitor_connection` of car.c and `monitor_socket` of controller.c.
--   Controller/State, Controller/Queue, Controller/Dispatch, Controller/Messages and
--     Controller/Connections: assignment2/controller.c. A linked list is the list of its nodes
--     from the head on, and a car is known by the descriptor of its connection. `serve_call`,
--     `end_connection` and `car_connection` put critical sections together with no other thread in
--     between, and `control_step`, `leave_list` and `close_last` are the sections one by one.
--     Controller/Dispatch/Rounds relates the two. In `insert_floors_into_queue` the pointer walk
--     keeps the nodes that are linked in front of `prev`; `finish` is what the code behind the
--     loop does to the pointers. Controller/Queue/Pointers is the same insertion on the `next`
--     pointers of the nodes. Controller/Queue/Plan is the specification of that insertion and
--     models no code. Controller/Listener: `controller_connection` and `handle_connection` of
--     controller.c, and `sigint_handler`; Controller/Listener/Program is its threads, one critical
--     section a step; Controller/Listener/Held, Counts and Descriptors follow the descriptors
--     through the lists, Controller/Listener/Leaks the connections with an error.
--   Internal: assignment2/internal.c, one operation a run.
--   Safety: assignment2/safety.c, one round of its loop behind the wait, with its own text
--     functions.
--   Call: assignment2/call.c, from the arguments to the message, and from the answer to the line.
--   HashTable: week5/workshop5/hashtables/hashtable_search.c, a program of its own. A bucket is the
--     list of its items; what the four threads of a search print is a list for each.
--   Vector: assignment1/vector/dbl_vector.c, a library of its own, over any type of items. The
--     product in `dv_ensure_capacity` wraps around in 64 bits; the results keep to sizes up to
--     2^50, where `capacity * 1.25` is exact.
--   RoundRobin: exam/week9/roundRobinScheduling_Skeleton.c, a program of its own: two queues over
--     the same nodes, the loop of `main` and `printLinkedList`. RoundRobin/Schedule states the
--     first-in first-out queue that it is compared with.
--   ShmIpc: assignment1/sharedMemory/shm_ipc.c and operations.h, two processes of their own. The
--     calls of the system are given by their results, a semaphore is its count, and ShmIpc/Phases
--     lists the global states of the exchange.
--   Buffer: week6/workshop6/buffer.c, a program of its own, as a step relation on the counts of its
--     threads, its semaphores and its ring of five places.
--   Condition: week6/workshop6/condition.c, a program of its own, as a step relation in which a
--     thread takes the mutex, goes through or waits, and gives it back in one step.
--   ReverseArray: week4/workshop4/sharedMemory, a program of its own: shm_reverse_array.c and
--     ancillary_functions.c. `qsort` is a parameter that keeps what the C library promises of it,
--     and the results of `rand` are given.
--   MessageQueue: week5/workshop5/threads/msgq.c, a program of its own, as a step relation in which
--     each statement on the shared record is a step.
--   PrintPid: week4/workshop4/semaphores/print_pid.c, a program of its own, as a step relation in
--     which each printed byte is a step.
--   Chat: week8/chatapp/server.c, a program of its own. A slot of its table is the descriptor in
--     it; the threads of the clients interleave at the mutex.
--   Links: memory as a function from the address of a node to its `next` field, and the paths in
--     it.
--   System: the car, its connection, the panel, the safety system and the sensors on one memory,
--     as a step relation in which each critical section is a step. System/Served, System/Called,
--     System/Stops and System/Trip put the programs together over the texts that they exchange: a
--     car that connects, a call that sends it, and the trip on which it goes through its stops.
--   Libc: what the programs use of the C library: `strcmp`, `strtol`, `atoi`, `snprintf` of "%d"
--     and "%s" into a buffer, and `sscanf` of words. `long` has 64 bits, `strtol` stops at its
--     ends.
--   Base: names of the library, integers, lists and bytes that all parts share.
--   Tests: concrete runs.
--
-- The processes of ShmIpc take turns in an order that is given; a process that waits at a semaphore
-- spends its turn.
--
-- Loops: the loops over texts and lists recurse on them. The walks along pointers and the loop of the
-- scheduler take fuel, and the results say how much is enough. `send_looped` and `recv_looped`
-- recurse on the list of the outcomes of `write` and `read`; where the list ends they wait, and the
-- result on messages gives the length of list that is enough. The endless loops of the programs are
-- rounds.
--
-- Not modelled: the set-up of the other sockets, of shared memory and threads, the other signal
-- handlers, and the freeing of memory, since they are calls of the system with no state of the
-- programs. `malloc` succeeds, except in HashTable, Car/Attempts and Controller/Listener, where it
-- may fail. Numbers of floors are unbounded integers: `atoi` is read on texts of at most four bytes
-- there.
-- The other files of the repository hold exercises of a course and have no model here.
pub mod Base
pub mod Libc
pub mod Shared
pub mod Car
pub mod Internal
pub mod PrintPid
pub mod ReverseArray
pub mod RoundRobin
pub mod Safety
pub mod ShmIpc
pub mod Controller
pub mod MessageQueue
pub mod Monitor
pub mod Buffer
pub mod Call
pub mod Chat
pub mod Condition
pub mod HashTable
pub mod Vector
pub mod Links
pub mod System
pub mod Tests
