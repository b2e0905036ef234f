-- ===== src/Lib.antt =====
-- Verification of labgrid's remote coordinator, graph strategies and targets.
--
-- The coordinator (labgrid/remote/coordinator.py) keeps the places of a laboratory, the sessions of
-- exporters and clients, the resources that the exporters offer, and the reservations. A user
-- acquires a place, the coordinator asks the exporters for the resources that match the place's
-- patterns, and gives places to reservations in passes of a scheduler (labgrid/remote/scheduler.py).
-- labgrid/remote/common.py has what all sides share. On a client's side a target
-- (labgrid/target.py, labgrid/binding.py) holds resources and drivers, and a graph strategy
-- (labgrid/strategy/graphstrategy.py) takes a board from one state to another. Steps
-- (labgrid/step.py) tell a report which decorated methods run.
--
-- Prelude: shared names; Prelude/Dict: dicts as lists of entries in the order of insertion;
-- Prelude/Exceptions: exceptions as values; Prelude/Text and Prelude/Sort: texts and stable sorting.
--
-- Scheduler (labgrid/remote/scheduler.py): schedule_step, schedule_overlaps and schedule. TagSet
-- objects are compared by identity, so they are numbers into a heap. The loop of schedule_overlaps
-- has the number of filters and one as fuel: each round but the last removes a filter.
--
-- Common/Tags, Match, Entry, Place, Reservation (labgrid/remote/common.py): the classes of these
-- names and their messages; Common/Glob is the standard library's fnmatchcase.
--
-- Coordinator/State (labgrid/remote/coordinator.py): the fields of the class Coordinator, resource
-- objects in a heap, since an exporter's group and a place share them, and a handler as a function
-- from the state to a result or an exception and the new state. Sessions and Clients have the
-- messages of ExporterStream and ClientStream; Places the requests from AddPlace to AllowPlace;
-- Acquire has AcquirePlace, ReleasePlace and what they call; Synchronize has _synchronize_resources,
-- with the order of its sets as an argument; Snapshot has save and load; Schedule and Reservations
-- have schedule_reservations and the requests for reservations. Events has what the streams do:
-- exporters and clients start, send and leave. They take no lock. Handlers run under the lock; while
-- one awaits an exporter, only the streams go on, and the list `waits` says what they do, an
-- exporter that comes back included, and what the answer is. A clock counts ticks, and a handler
-- reads it once. Runs has all of this as steps of a state machine, and Catalogue an abstract view of
-- the places with what each request does to it.
-- Frame, Standing, Stable, Exclusive and Orderly have what proofs over the handlers share.
--
-- Strategy (labgrid/strategy/graphstrategy.py): find_abs_path and find_rel_path; Strategy/Init has
-- __attrs_post_init__ and Strategy/Transition has transition, over the methods of the user's states
-- and the target as parameters. The fuel of find_abs_path is bounded by a rank of the states where
-- the dependencies do not go round; where they do, the code does not end.
--
-- Target (labgrid/target.py, labgrid/binding.py): Target/Select has get_resource, _get_driver and
-- get_strategy, Target/Bind has bind_driver, Target/Deactivate has deactivate,
-- deactivate_all_drivers and cleanup, Target/Await has update_resources and await_resources, and
-- Target/Activate has activate. Times are milliseconds. The fuel of deactivate is bounded by a rank
-- of the objects, that of the waiting loop by the resources and the half seconds until the deadline;
-- that of activate bounds how deep activations nest, and a call that runs out of it counts as one
-- that raises.
--
-- Step (labgrid/step.py): the stack of steps, their events, and the function that the decorator
-- `step` makes of a function; Step/Started and Step/Stopped have its two ends.
--
-- Not modelled: logging and printing; the event loop's tasks and the startup timeouts of the streams;
-- the files of the snapshots; the export of a target's variables; the exporter, the client, the
-- managers of resources, drivers but for the conflicts of consoles, and the configuration. Sets are
-- lists in the order of insertion, floats are bit patterns or ticks, priorities are scaled integers,
-- and protobuf's maps are dicts.
pub mod Prelude
pub mod Scheduler
pub mod Common
pub mod Coordinator
pub mod Strategy
pub mod Target
pub mod Step
