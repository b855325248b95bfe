-- ===== src/Lib.antt =====
-- UncoVer is a tool that verifies graph transformation systems by a backward search: from a set of
-- error graphs it computes, by applying the rules backwards, a finite basis of all graphs from
-- which an error graph can be covered. This library models the search and the data it works on.
--
-- Base: shared names, lists, sets of IDs and maps keyed by IDs (std::unordered_set,
-- unordered_multiset and unordered_map).
-- Analysis/Backward: src/analysis/BackwardAnalysis.cpp. `perform_analysis` is performAnalysis,
-- `apply_one` is applyOne; `search`, `process_all`, `process` and `apply_rules` are the loops of
-- performAnalysis from the outside in. The order, the enumerator of pushout complements, the
-- prepared rules and the clock are the fields of the record Parts, as BackwardAnalysis gets them
-- through pointers to interfaces; Backward/Laws states what the documentation of these
-- interfaces promises. The outer loop runs on fuel, which bounds the search depth: on a
-- well-quasi-order some fuel is enough. The inner loop runs as often as the enumerator says.
-- Analysis/UqInstances: the iterator of src/analysis/PreparedGTS.cpp over the instances of a
-- universally quantified rule. `load_next_rule` is loadNextRule and `all_instances` the loop of a
-- caller; the fuel of the inner loop lets each quantity run through its values once.
-- UqInstances/Rules has beginUQInstances; what its loop inserts for a vector is a parameter, which
-- the theorem ties to createInstance and to a preparer, as a subclass of RulePreparer fills it in.
-- Analysis/PreparedGts: the constructor and getOriginalRules of src/analysis/PreparedGTS.cpp.
-- Graphs/MinGraphList: src/graphs/MinGraphList.cpp, the list of minimal graphs and its cache of
-- IDs, which the search fills by `add_graph` and asks by `has_id` (contains).
-- Graphs/Hypergraph: src/graphs/AnonHypergraph.cpp, the store of a graph and the operations that
-- change it, with the 32-bit counter of IDs. The invariant IsWf of Hypergraph/Incidence says
-- that the redundant map connectedEdges agrees with the edges.
-- Graphs/Mapping: src/graphs/Mapping.cpp, the partial maps between the IDs of two graphs, as
-- association lists in the order of the keys.
-- Graphs/Gts: src/graphs/GTS.cpp, the rules and initial graphs that the search reads.
-- Graphs/PathChecker: src/graphs/PathChecker.cpp, the search for a path without repetition.
-- Graphs/AnonRule: src/graphs/AnonRule.cpp, a rule as a map between two graphs: the conditions of
-- isBackApplicable and isConflictFree on a match, and fillSplitRule, which works on the stores of
-- the graphs.
-- Graphs/UqRule: src/graphs/UQRule.cpp and UQRuleInstance.cpp, rules with universal quantifications.
-- `extend_rule_by_uq` is extendRuleByUQ, with its four loops in UqRule; UqRule/Create has
-- createInstance and its kin, UqRule/Instance what an instance does otherwise than a rule. The
-- optional sets of generated IDs are always filled.
-- Basic/IdPartition: src/basic_types/IDPartition.cpp, the transitive closure of two partitions of
-- IDs, as sets of sets.
-- Basic/IdPartitionEnumerator: src/basic_types/IDPartitionEnumerator.cpp, the enumerator that merges
-- the classes of the partitions it has generated. `next_partition` is operator++.
-- Basic/Globals: src/basic_types/globals.cpp, the counters from which all IDs come.
-- Engine/ExpEnumerator: src/rule_engine/ExpEnumerator.cpp, the odometer from which the enumerators
-- of the rule engine take their sequences of choices.
-- Engine/MatchFinder: src/rule_engine/StdMatchFinder.cpp, the search for all matches of one graph in
-- another. `map_edges` is mapEdges, with its loop in `try_targets`, whose rounds are `extend` and
-- `undo`; `is_map_possible` is isMapPossible. MatchFinder/Isolated is mapIsolatedNodes, whose
-- odometer runs on fuel: one for each sequence of targets is enough. MatchFinder/Find is
-- findMatches. The state of the recursion, which the code shares by references, is passed on;
-- MatchFinder/Undo compares two states up to the order of the entries. Morphisms are those of
-- IsMorphism in MatchFinder/Partial.
-- Subgraphs: src/subgraphs/SubgraphOrder.cpp, the order that asks the search for one match.
-- Minors: src/minors/MinorOrder.cpp, what the minor order checks for one choice of edges:
-- `generate_mapp` (generateMapp) and the three tests on a partition of the vertices.
--
-- A vector that is used as a stack is a list whose head is its back. A multiset is a list. The
-- exceptions are values of a result type; a graph that an operation leaves half changed when it
-- throws is not modelled, so the results after an exception say only which one is thrown.
--
-- Not modelled: reading and writing of files, logging, the scenarios of the command line, the
-- pushout complements and the enumerations of the minor order; the search uses only the interfaces
-- of these.
pub mod Base
pub mod Analysis
pub mod Basic
pub mod Engine
pub mod Graphs
pub mod Minors
pub mod Subgraphs
