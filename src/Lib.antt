-- ===== src/Lib.antt =====
-- A model of the core of Shaken Fist, a small cloud: the objects in its database, their states, and
-- the resources that it hands out. Paths are those of the repository.
--
-- The program. Every object (instance, network, blob, …) is a DatabaseBackedObject whose static
-- values and attributes are JSON documents in etcd. Its state is an attribute that moves along the
-- transitions of its class, and a cache in etcd lists the objects that are in each state. A network
-- has an IPAM, which reserves addresses for instances and gateways and keeps a released address in
-- a halo for some time. Disk contents are blobs, which count their references and go when nothing
-- refers to them; an artifact is a list of numbered versions, each of which is a blob. The scheduler
-- chooses the nodes that an instance may be started on. Requests come with a token made from a key
-- of a namespace, and what is to be done on a node goes through a queue in etcd.
--
-- The files.
--   Prelude         Boolean tests, equality of keys, dictionaries, lists, results.
--   ObjectState     shakenfist/baseobject.py (state, _state_update, error, _db_create, hard_delete),
--                   shakenfist/cache.py and the `state_targets` of every class. Names has the names,
--                   Tables the transitions, Documented the diagrams of
--                   docs/developer_guide/state_machine.md, Cache and CacheLaws the caches, Update the
--                   methods, Machine and Runs what they guarantee. Iterate has get_iterator, with
--                   Members and Iterated on which objects it yields; Upgrade has upgrade and
--                   get_minimum_object_version with its cache, Upgraded what an upgrade makes of an
--                   object, Remembered and Reach which nodes can read it. The fuel of an
--                   upgrade is more than the versions between.
--   Ipam            shakenfist/ipam.py. Block has the arithmetic of an IPv4 block, Model the state
--                   and the methods, Allocate reserve_random_free_address; Halo, Freed, Reserve,
--                   Release, Outcome and Allocation have the proofs.
--   Blob            the reference counts of shakenfist/blob.py. Model has the methods, Count, Release
--                   and Fuel the proofs.
--   Artifact        the versions of shakenfist/artifact.py, over Blob. Order has sorted lists, Model
--                   the methods, Kept, Unneeded, Versions, Recent, Runs and Dangling the proofs; Url has
--                   from_url.
--   Namespace       shakenfist/namespace.py, and the checks that rest on it in
--                   shakenfist/external_api/base.py and auth.py. Model has keys and trust, Api the
--                   tokens, decorators and endpoints; Access from_db_by_ref behind the
--                   decorators; Keys, Tokens, Login, Change, Revoked and Trusted have the proofs.
--   Queue           the work queues of shakenfist/etcd.py. Model has the operations, Outstanding and
--                   Runs the proofs.
--   Instance        shakenfist/instance.py. Disks has the block devices and the blob references,
--                   Devices and References the proofs; Placement and Listed where instances are
--                   placed and the lists of shakenfist/node.py; Power and Attempts pause and unpause;
--                   AgentOperations and Fifo the queue of agent operations; Failure, Failing,
--                   Deletion and Created creation, failure and deletion over ObjectState; Ports, Fresh
--                   and Owned the console ports.
--   Interface       shakenfist/networkinterface.py, and the allocation of an interface's addresses in
--                   shakenfist/external_api/instance.py and util.py, over Ipam. Model has the
--                   methods, Allocate _netdesc_allocate_address; Given, Joined, Floating, Left and
--                   Macs have the proofs.
--   Creation        the checks of a request to create an instance in
--                   shakenfist/external_api/instance.py, over Namespace, Artifact, Ipam and Instance.
--                   Request has what is asked for, Disk the disks and the NVRAM template, Checks the
--                   whole; Accepted and Passed have the proofs.
--   Scheduler       shakenfist/scheduler.py. Metrics has what is known of a node and the tests of it,
--                   Groups the choice of the best group, Find find_candidates; Best, Filter,
--                   Suitable, Choice and Chosen have the proofs.
--
-- The conventions. A method that changes an object takes the state and returns the new one; an
-- exception is the error of a Result, or `none`. Etcd holds one value for each path, so a family
-- of paths is a dictionary. Locks are taken to be granted, so a method under a lock is one step;
-- events and log lines are left out, since no method reads them. Time is a natural number, read
-- from a clock that is a parameter; random bits are a parameter, and random candidates a list.
-- An address is the number that it stands for. The password hash is a parameter. The loops are
-- structural, over lists or over the rounds that are left (three requests in pause, six in
-- power_on), except that of blobs which release the blobs that they refer to: there fuel bounds
-- the depth, and Blob.Fuel shows that enough of it is given where references have no cycle. The
-- ratios of the scheduler are fractions, compared by products, and its shuffle inserts at places
-- that are a parameter. The order of jobs in a queue is that of their times and then of their
-- random texts. Strings that the code cuts up, such as names in URLs, are taken as they come.
--
-- Not modelled: the network and storage side (libvirt, dnsmasq, qemu-img, the HTTP transport),
-- the event log, and the daemons that drive the objects.
pub mod Prelude
pub mod ObjectState
pub mod Ipam
pub mod Blob
pub mod Artifact
pub mod Namespace
pub mod Scheduler
pub mod Queue
pub mod Instance
pub mod Creation
pub mod Interface
