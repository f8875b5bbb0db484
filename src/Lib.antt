-- ===== src/Lib.antt =====
-- NIKSS is a library, and a command line tool on top of it, that manages P4 programs in the Linux kernel
-- through eBPF maps that are pinned in the BPF file system. A function of the library opens the maps of
-- an object by name, reads or changes them by bpf(2), and closes them. This development models the
-- packet replication engine, the action selectors, tables and value sets, counters, registers, digests,
-- meters, direct counters and meters, the structs that keys are made of, and the loops of the tool that
-- read sessions and groups.
--
-- The parts, and the files that model them:
--   Base      names, Boolean tests, lists, equality of map keys.
--   Bpf       the system below the library, which is a parameter of all else.
--     Types     results and errno; the calls on maps (MapCalls) and on objects (FileCalls); what bpf(2)
--               documents of the calls, as laws over the contents of the maps (UpdateLaws, MapLaws).
--     Exec      a function of the library, from a process (the kernel's world and the number of open
--               file descriptors) to a result and a process; close_object_fd.
--     Open      open_bpf_map and update_map_info of lib/btf.c, build_ebpf_map_filename of lib/common.c.
--     Assoc     maps as association lists, an implementation that obeys the laws.
--   Pre       lib/nikss_pre.c: clone sessions and multicast groups. A session is a map whose nodes are a
--             linked list with its head at the key (0, 0).
--     Types, Maps, Session, Entry, Walk  the data and the static functions: open_pr_maps,
--               open_session_map, create, remove, exists, pre_session_insert_entry,
--               pre_session_del_entry, pre_get_next_entry, pre_get_next_session.
--     CloneSession, Multicast  the public functions, nikss_clone_session_* and nikss_mcast_grp_*.
--     Chain, Lists, Find, Unlink, Insert, Delete, Opening  which list a map holds (IsSession), and what
--               the steps do to it.
--     Update, Blocked, Iterate, Scan, Descriptors  the properties. Sim and Tests run them.
--   Selector  lib/nikss_action_selector.c. A group is an array with the number of its members at the key 0
--             and their references behind it.
--     Types, Groups, Members, GroupSet, Context, Iterate  the data and the functions.
--     GroupList, SwapRemove  which list of members a map holds (IsGroup), and removal from a list.
--     TableEntry  the two functions of lib/nikss_table.c that it calls, with the table, the cache and the
--               entry that it makes up for them.
--     Append, Remove, Reserve, AddMember, InUse, Descriptors, MemberAction  the properties. Sim, Tests and
--               MemberTests run them.
--   Table     lib/nikss_table.c: the entries of tables.
--     Types, MatchKey  contexts, entries and match keys.
--     Write, Keys, Masks, Values  the buffers for a key, a mask and a value: construct_buffer and the
--               family of fill_* functions, mem_bitwise_and of lib/common.c, parse_table_value_no_btf.
--     Prefixes, Tuples  the list of prefixes of a ternary table, and its tuples.
--     Entry, Delete, Get  nikss_table_entry_add, _update, _del and _get, and the default entry.
--     ReadKey, Iterate, Opening  parse_table_key, nikss_table_entry_get_next, nikss_table_entry_ctx_tblname.
--     Clear     delete_all_map_entries and clear_table_cache, which the selectors use too.
--     PrefixList, AddPrefix, RemovePrefix  which prefixes a map holds (IsPrefixList), and what becomes of
--               them. Joined, Encoded, Masked, MaskValue  the bytes that are written. Stored, CacheEmpty, Emptied
--               the contents of the maps. Sim, EntryTests, PrefixTests, MaskTests and Tests
--               run them.
--   ValueSet  lib/nikss_value_set.c (Context, Entries), by the functions on tables; Ternary and Empty are
--             about ternary sets. Tests runs them.
--   Struct    lib/common.c: buffers and swap_byte_order (Buffer), structs from fields (Fields), the iterators
--             over fields (NextField), and what comes out (Swapped, Constructed, FieldWalk). Tests runs them.
--   Counter   lib/nikss_counter.c: values as bytes (Value), get, set, reset and iteration (Access), and what
--             they do to the contents of the map (Stored). Tests runs them.
--   Register  lib/nikss_register.c: the functions (Access), and what they do to the contents of the map (Stored).
--   Digest    lib/nikss_digest.c: the queue and the fields of a digest (Access), and how these are gone through
--             (Fields).
--   Direct    lib/nikss_direct_counter.c (Counter) and lib/nikss_direct_meter.c (Meter), whose loops are alike
--             (Found, ByIndex), and their numbers in the value of an entry, in lib/nikss_table.c (Write):
--             handle_direct_objects_write, parse_table_value_direct_counter and _meter. Misplaced is about
--             where a counter is written. Tests and WriteTests run them.
--   Meter     lib/nikss_meter.c: rates and their periods (Rate), the conversions between them (Converted),
--             access to meters (Access), and what it does to the contents of the map (Stored). Tests and
--             StoredTests run them.
--   Cli       CLI/clone_session.c and CLI/action_selector.c: the loops that read the entries of a session
--             and the members of a group, as clients of Pre and Selector. Hex is convert_bin_data_to_hexstr
--             of CLI/common.c, and HexValue is about the number that it writes; Tests and HexTests run them.
--
-- Conventions. A file descriptor is the number of the map that it refers to, and -1 is `none`; a null
-- pointer is `none` too. An out parameter is a further result. A uint32_t wraps around where the code
-- increments it. After an `err:` label the code runs by `finally`. Loops run on fuel and give `hangs`
-- when it is used up. Enough fuel is one round more than there are nodes, keys or members, or as many
-- rounds as there are groups. The list of prefixes of a ternary table takes one round more than it has
-- prefixes; the iteration over its tuples is bounded by the code. `hangs` also stands for what C leaves
-- undefined: a meter's rate that cannot be converted, an index beyond the direct counters of a table.
--
-- Not modelled: messages on stderr and the failure of small allocations; the BTF of maps and its type ids;
-- the spelling of paths and the truncation of long names; padding of structs. The BTF of a table
-- describes at most the type of its key, which is then a part of the context; without the type of the
-- value the code takes values byte by byte and handles no direct counters or meters, whose numbers in a
-- value Direct/Write.antt models apart from the writing of entries. The functions on
-- selectors take the two functions of lib/nikss_table.c that write and read the action of an entry as
-- parameters, which Selector/TableEntry.antt fills; the map of members as the references number it stays
-- another parameter than the same map as a table. A group is closed between two calls, except for the
-- iterator over its members. The numbers of a counter have their lowest byte first, as on x86. Values by
-- BTF, the search for direct objects in it, and the names of actions in lib/nikss_table.c, pipelines, argument parsing and JSON output are left out.
pub mod Base
pub mod Bpf
pub mod Cli
pub mod Counter
pub mod Digest
pub mod Direct
pub mod Meter
pub mod Pre
pub mod Register
pub mod Selector
pub mod Struct
pub mod Table
pub mod ValueSet
