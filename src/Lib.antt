-- ===== src/Lib.antt =====
-- Verification of ABIX, the C++ headers under include/SKL/ABIX.
--
-- ABIX lets modules that were built apart share types, functions and interfaces. A module carries
-- descriptors of its types (Metadata/Descriptor.h); loading it enters each type in a canonical registry,
-- which keeps one layout for each type id (Metadata/Registry.h), and in a versioned registry, which keeps
-- one entry for each id and version (Runtime/Registry.h). Identities and digests all come from one hash
-- engine (Util/Hash.h): type ids (Model/ABI.h), layout and signature digests over a canonical byte
-- encoding (Model/Compat.h), and the ids of interfaces and methods (Interface/Contract.h). A provider
-- publishes method tables, in a registry (Interface/Registry.h) or in a manifest (Interface/Module.h),
-- and a client resolves them into handles and caches that it calls through (Interface/Ref.h). A plan
-- converts an object of one layout into another (Model/Map.h). The kernel's own types are registered by
-- the bootstrap loader (Model/Bootstrap.h). Tools read the metadata of a module from its file, through one
-- model of ELF, Mach-O and PE images (Binary/BinaryImage.h). Objects that readers may still use are
-- reclaimed through an epoch domain (RCU/Domain.h), such as the images of the libraries that an object
-- loads, swaps and unloads (DLL/Object.h), whose functions are looked up by name (Runtime/Search.h); objects
-- of a loaded library are held by counted pointers (DLL/RefPtr.h).
--
-- Files, by the path of the header they model:
--   Util/Hash            Util/Hash.h: CanonicalState and every canonical_hash_* function; Bits and Bytes
--                        hold lemmas on xor and big-endian bytes, Lanes the two lanes as injections.
--   Model/Abi            Model/ABI.h: Hash128, TypeDesc, TypeLayout, Field, canonical_type_id.
--   Model/Bootstrap      Model/Bootstrap.h: abix_bootstrap over any consumer.
--   Model/Compat         Model/Compat.h: visit_canonical_layout over the two sinks, the digests, compare.
--                        Encoding states the canonical bytes, Sinks relates the sinks to them, Decode
--                        shows that they determine the layout.
--   Model/Map            Model/Map.h: MapPlan::apply on objects as byte lists; an access outside of an
--                        object is an error value. Memory, Operations and Safety hold the
--                        proofs.
--   Metadata/Descriptor  Metadata/Descriptor.h: the descriptors and valid().
--   Metadata/Registry    Metadata/Registry.h: register_type, the lookups, bootstrap_self. Invariant,
--                        Outcome and Kernel hold the proofs.
--   Runtime/Registry     Runtime/Registry.h: check_module, register_module, validate, the lookups. Check
--                        is about the dry run, Round about one type of the loop, Load about the loop,
--                        Lookup about what is found afterwards.
--   Runtime/Search       Runtime/Search.h and the tables of Runtime/Type.h: next_pow2, the linear scans, the build
--                        of a hash index and the lookups through it, the slot pool. Bits, Smear and Pow2 are
--                        about the size of an index, Probe, Free, Built and Filled about its build, First and
--                        Walk about the entry that a lookup meets, Find about both lookups; Named has the
--                        overloads that hash the name.
--   Interface/Contract   Interface/Contract.h: identities of interfaces and methods. Decimal is about the
--                        digits that are hashed, Text about the hashed texts, Order about the sort.
--   Interface/Registry   Interface/Registry.h: add, find, find_newest, available.
--   Interface/Ref        Interface/Ref.h: InterfaceRef, fill_slot_entries, InterfaceSlotCache and, in Table,
--                        InterfaceSlotTable. Slots is about arrays written by slot, Resolve about
--                        handles, Cache about the cache.
--   Interface/Module     Interface/Module.h: validate_manifest.
--   Interface/ModuleRegistry  Interface/ModuleRegistry.h: register_module, unregister_module and the lookups.
--                        Slots is about positions in the list of slots, Refusals about the tests of
--                        register_module, Load about what it adds, Unload about the array of interfaces,
--                        Others about the modules that stay, Removal about unregister_module, Binding has
--                        bind_interface.
--   Interface/Lease      Interface/Lease.h: the atomic actions of try_acquire_lease, release_lease and the
--                        lifecycle as a step relation on the control block and a list of threads.
--                        Draining holds the proofs.
--   Binary/Reader        Binary/BinaryImage.h, namespace detail: the reads at an offset, with a read outside of
--                        the image as a value, fault. Bounds is about reads inside.
--   Binary/Image         Binary/BinaryImage.h: what an adapter produces.
--   Binary/Elf           Binary/ELF.h. Bounds is about the tables, Exports about the symbols and the whole.
--   Binary/Macho         Binary/MachO.h. Bounds is about the commands, Exports about the symbols and the whole.
--   Binary/Pe            Binary/PE.h, with Exports the export directory and the whole. Rva is about addresses,
--                        Bounds about the headers, Reads about all reads.
--   Binary/Container     Binary/BinaryImage.h: BinaryImage, read_region, detect_format, parse_binary_image.
--                        Bounds is about regions, Adapters about the choice of the adapter.
--   Rcu/Domain           RCU/Domain.h: the locked sections and the loads and stores of the readers, as functions.
--   Rcu/Steps            RCU/Domain.h: the atomic actions of the threads, in any order. Invariant, Readers,
--                        Writers, Advance, Collector, Ending and Safety are about what readers hold, Owner and
--                        Ownership about the owner of an advancement, Progress about its end.
--   Dll/RefPtr           DLL/RefPtr.h and DLL/ViewPtr.h: the operations on a control block and the pointers of a
--                        program. Counts is about one operation, Pointers about all of them.
--   Dll/Object           DLL/Object.h: load, unload, force_unload, the retirement of an image and the accessors,
--                        over an interface of the epoch domain, whose answers are arbitrary; a ledger in front of
--                        it logs the calls of retire_token. Accounts says where modules are, Fetch is
--                        about load_image, Calls about the calls and the retirement, Runs about each call,
--                        Loads about load and sequences of calls.
--   Prelude              shared names, Boolean tests on numbers, lists as arrays, the two scans of the
--                        registries.
--   Tests                witnesses at concrete inputs.
--
-- Conventions. A fixed array with a count is the list of its first count elements, and the template
-- parameter Capacity is a parameter. A pointer to an array is none where it is null and a function of the
-- index otherwise; the loops read its first elements. Unsigned integers are natural numbers with their
-- wrap-around written out; a theorem that needs a range says so. A pointer into a registry is the entry it
-- points to, which never changes once it is stored. A state-changing operation returns its status with
-- the new state. Three kinds of loop run on fuel. The digit loop of interface_hash_u64
-- has one unit for each of the 20 places of its array, and a 64-bit number has no more digits. The loop over
-- the ELF symbols has two units more than the table has bytes, and each round advances by at least one byte;
-- without fuel it is exhausted, which is no result. The walks through a hash index have one round for each
-- slot, and one that did not end in them is none. The epoch domain is modelled over sequentially consistent
-- memory, with a section under the writer lock as one action; its epoch is kept below 2 ^ 64 by the steps,
-- which no program reaches.
--
-- Not modelled: the spin lock of the slot pool, the pin hooks of a lease, proxies and owners, the function
-- handles of a loaded library and the pointers with atomic counts. RCU/Domain.h answers 0 and queues nothing
-- where retire_impl cannot allocate its node; Rcu/ takes that allocation to succeed. Atomics, logging, allocation, the STD
-- wrappers and the bridges are I/O, compiler intrinsics or glue to libraries outside of the repository. The
-- calls of an object run one after another and take the epoch domain as an interface with no law: its answers
-- are arbitrary, a retirement that it drops included. What is counted is the calls of retire_token, each with its
-- image; whether the domain then unloads the image is a matter of the domain.
pub mod Prelude
pub mod Util
pub mod Model
pub mod Metadata
pub mod Runtime
pub mod Interface
pub mod Binary
pub mod Rcu
pub mod Dll
pub mod Tests
