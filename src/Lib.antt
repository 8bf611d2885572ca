-- ===== src/Lib.antt =====
-- geo_nexus_sdk: a model of the core of the GeoNexus SDK, and what holds of it.
--
-- The program submits geospatial tasks, orders them by their dependencies, hands them to executors
-- and tells clients what became of them (src/geonexus/geotask). A catalogue shows the cards of the
-- data, models and skills that tasks use (src/geonexus/geocard, src/geonexus/registry), a model is
-- matched with a node that has the resources for it (src/geonexus/resource.py), and a task can be
-- pushed down to a worker that holds the data (src/geonexus/cafe), which asks the same match for
-- the capacity of a worker. A recipe is a document of steps that is reviewed, forked, and turned
-- into such tasks (src/geonexus/recipe).
--
-- Geotask/Model.antt (src/geonexus/geotask/model.py): the values of a task, its states, error codes
-- and retry policy. A time is in milliseconds, a number of cores in thousandths, a progress in
-- millionths and a multiplier in hundredths, so that every quantity is a natural number.
-- Geotask/Machine.antt (src/geonexus/geotask/machine.py): the table of transitions. Machine/Paths
-- follows the runs that the table allows.
-- Geotask/Events.antt (src/geonexus/geotask/events.py): the event types and build_event.
-- Geotask/Store.antt (src/geonexus/geotask/store.py, TaskStore): the tasks, their event logs and
-- sequence numbers. Each method holds the lock from start to end, so it is one step from a store to
-- an answer and a store; a method that raises keeps what it wrote. The clock is the argument `now`.
-- Store/Log is about one log, Store/Effects about what a method writes, Store/Invariant,
-- Store/Moves and Store/Reconcile about all methods, histories of calls and the reconciliation
-- after a restart, Store/Listing about `list`.
-- Geotask/Graph.antt, with Graph/Kahn (src/geonexus/geotask/graph.py, TaskGraph): the graph reads
-- and writes the objects of the store that it is bound to, or its own. Graph/Topo is about the
-- topological order, Graph/Marks and Graph/Blocked about the mark_ methods, Graph/Cascade about the
-- spread of a failure, Graph/Ready about the ready set.
--
-- Bounds: `kahn` runs as many rounds as there are tasks and `cascade_from` runs (n + 1) * (n + 1)
-- rounds for n tasks; both are enough, since a task enters the queue of the first once, and the
-- second visits a task once and queues at most n tasks at each visit.
--
-- Geotask/Scheduler.antt (src/geonexus/geotask/scheduler.py): reservations, occupancy and the state
-- of the scheduler; Scheduler/Order is `_fair_order`, Scheduler/Turns is about what it holds, Scheduler/Admission is `admit`,
-- Scheduler/Capacity and Scheduler/Safe are about what is held. A reason is a value where the
-- source writes a text. The round robin takes whole rounds, each with at least one task, so there
-- are no more rounds than tasks.
--
-- Geotask/Runner.antt (src/geonexus/geotask/runner.py, with TaskOutcome of backend.py): what the
-- runner does with an outcome, on the graph and on the scheduler. Runner/Settle is about where a
-- task is then. Runner/Loop is `run` with `_admit`: a turn of the loop holds what the world answers
-- in it, which is the clock, read once, the wish to stop, which submissions fail, and the task that
-- is done first with its outcome; the loop takes as many turns as it is given, and the end of the
-- list ends it as a wish to stop does. Runner/Held, Runner/Triples, Runner/Admitted and
-- Runner/Leak, with Scheduler/Holders, are about who holds a share of the node.
--
-- Geocard/Visibility.antt (src/geonexus/geocard/visibility.py): how visible a card is that is
-- composed of others. The function that finds a card by its id is a parameter. Visibility/Texts is
-- about the levels, Visibility/Resolve about the loops over components, Visibility/Composed about
-- composed cards.
--
-- Geocard/Model.antt (src/geonexus/geocard/model.py): what the other parts read of a card.
-- Geocard/Contract.antt (src/geonexus/geocard/validator.py): the checks of ContractValidator.check;
-- Contract/Check is the verdict, Contract/Boxes, Contract/Bands and Contract/Sound are about what a
-- satisfied request means. A coordinate and a resolution are in billionths. pyproj, `datetime` on
-- ISO texts and how Python prints lists and numbers are parameters.
--
-- Registry/Models.antt (src/geonexus/registry/models.py, src/geonexus/review.py): the entries.
-- Registry/Store,
-- Registry/Cards, Registry/Skills and Registry/Plugins are the methods of RegistryStore
-- (src/geonexus/registry/store.py); the file that it saves to is part of the state, and the JSON
-- forms of entries and the contract check are parameters, and Geocard/Contract is what the source
-- passes as the check. Registry/Calls is any of the calls that write; Registry/Promise is what its
-- maps promise, Registry/Catalogue is about the maps that the store stands for, Registry/Reload
-- about the file, Registry/Hidden about the search.
--
-- Resource.antt (src/geonexus/resource.py): match_resource; Resource/Sizes reads quantities, with
-- an exact fraction where the source has a float. Resource/First is about the choice.
--
-- Cafe/Protocol.antt (src/geonexus/cafe/protocol.py, WorkerCapabilities of remote.py),
-- Cafe/Central, Cafe/Routing and
-- Cafe/Dispatch (src/geonexus/cafe/central.py): the central server. What a worker does with a
-- request, the clock and the order in which Python walks through a set are parameters; the clock
-- stands still while a request is routed. Routing/Eligible and Routing/Choice are about the choice
-- of a worker, Dispatch/Detach, Dispatch/Reach and Dispatch/Leases about the attempts of a
-- dispatch. Its loop runs as many rounds as the source's `range`.
--
-- Recipe/Address, Recipe/Model, Recipe/Checks and Recipe/Queries (src/geonexus/recipe/model.py,
-- with ParamSpec of geocard/model.py): the document of a composed case. Its validators are
-- functions to the list of what they object to, in the order in which pydantic calls them; a
-- document whose list is empty is one that the constructor lets through.
-- Recipe/Params, Recipe/Templates and Recipe/Materialize (src/geonexus/recipe/materialize.py): the
-- values of the parameters, the templates in a step, and the tasks of a run, which go into the
-- graph of Geotask/Graph; Recipe/Resources reads what a step reserves. A number of JSON is an
-- integer, a float in millionths, an infinity or NaN; how Python reads a number from a text, makes a
-- number of cores or a whole number of a value, and writes a value, are parameters.
-- `kahn_steps` runs as many rounds as there are steps, and a step enters its queue once.
-- Recipe/Renamed and Recipe/Built take the check of the recipe over to the graph, Recipe/Endings,
-- Recipe/Faults and Recipe/Planned are about the run, Recipe/Templated, Recipe/Filled and
-- Recipe/Returned about when it returns, Recipe/Settled and Recipe/Contracted about the values.
-- Recipe/Catalogue (src/geonexus/recipe/registry.py): the recipes under review. What the file holds
-- is part of the state, as to_dict writes its entries; the JSON form of a recipe, which pydantic writes
-- and validates, is the field `form` of a catalogue. Catalogue/Reviews, Catalogue/Lookup and Catalogue/Fork are the methods of
-- RecipeRegistry, Catalogue/Versions and Catalogue/Latest are about resolve, Catalogue/Derivation and Catalogue/Forked
-- about fork, Catalogue/Kept and Catalogue/Sound about all that write. The clock is an argument.
--
-- Base.antt holds what the parts share: lists and integers over the native numbers, dictionaries as
-- lists of pairs, the values of JSON, and actions that change a state and may raise.
--
-- Not modelled: the dictionary forms of the values (to_dict, from_dict) and the JSON file of
-- JsonTaskStore; the default capacity of the scheduler, which asks the operating system, and its
-- statistics; how the runner polls its backend; the execution of code by a worker; the aliasing of
-- an entry of the registry that a caller keeps; a time of a contract whose UTC form does not exist,
-- for which the source raises; the YAML and JSON forms of a recipe, a number of cores that is negative
-- or not finite, and the stamps by which its catalogue notices that the file has changed; the other packages, which
-- are clients and servers of other services.
pub mod Base
pub mod Cafe
pub mod Geocard
pub mod Geotask
pub mod Recipe
pub mod Registry
pub mod Resource
