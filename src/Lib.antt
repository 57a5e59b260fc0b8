-- ===== src/Lib.antt =====
-- The PyG knowledge graph builder turns RDF triples of several sources into a PyTorch Geometric graph. This
-- library models the parts of it that decide by plain computation, and that Spark and PyTorch only carry out.
--
-- Parts, and the files that model them:
--
-- Layout (spark_jobs/pyg_builder/vector_layout.py, edge_vector_layout.py). VectorLayout and
-- EdgeVectorLayout divide a feature vector of a given width into sub-segments by fixed shares. Layout.Node
-- and Layout.Edge have a record with the fields of each class; vector_layout and edge_vector_layout are the
-- constructors, with the ValueErrors and the assertions of _validate as a Result. The shares are doubles,
-- and int(round(n * f)) is computed exactly in Layout.Rounding: a share is its numerator over a power of
-- two, the product is rounded to 53 bits, half to even, and then to an integer, half to even. The search for
-- the unit of the last place runs on fuel, namely the product itself, which bounds the number of halvings.
-- Layout.Spans says what it is for sub-segments to follow one another.
--
-- Trim (spark_jobs/pyg_builder/feature_trim.py, sparse_scatter.py). A TrimSpec says which positions of a
-- layout are stored, constant, copies of others, or always 0. trim_spec is its constructor with the checks
-- of _problems; Trim.Scatter has scatter_sparse_entries and scatter_chunk, over tensors as functions of row
-- and column, for any type of numbers with a zero and an equality test (Base.Number); Trim.Check has TrimCheck,
-- and Trim.Table the fixed list TRIMMED_NODE_TYPES with trims_for, which reads a node layout. Proofs:
-- Trim.Valid and Trim.Writes on specs and writes, Trim.Cells and Trim.Rebuild on the cells of a chunk,
-- Trim.Sound on rebuilding the full vector, Trim.Clean on what TrimCheck reports. Trim.Nonzero has
-- any_nonzero_from; Trim.Places, Trim.Views and Trim.Seen are about it.
--
-- Watchdog (bin/stall_watchdog.py). classify, and the loop of main as a function of what each round reads
-- from the driver. The loop's variables seen, captured, captures and idle_since are the record Watch; poll
-- is one round, visit the body of the loop over stages, and a return is the value exit. Times are
-- milliseconds as natural numbers, and the factor is a fraction. Watchdog.Classify and Watchdog.Justified
-- are about one capture, Watchdog.Once about all of them.
--
-- Sources (spark_jobs/sources/spec.py, sources/__init__.py, utils/namespaces.py). SourceSpec with the
-- checks of __post_init__ (Sources, Sources.Wellformed), the sources that a run's paths name (Sources.Paths:
-- specs_for_path, match_path, pick, sources_read) and the namespaces and mapping rows of the sources
-- (Sources.Terms: identifier_namespace, entity_prefixes, source_of_type_uri, _merged_rows; Sources.Terms.Tables:
-- sources_in_type_uris, relation_fragments and the small tables; Sources.Terms.Held is about the feeds it
-- adds). Base.Segments says what the parts of a split are. A text is the
-- list of its code points (Base.Texts). str.lower is an argument, since its tables are Unicode's, and
-- nothing is asked of it. Specs are compared by identity, which the field ref stands for.
--
-- Publish (bin/publish_run.py). How a run's files and its day's tables are sent: check_upload,
-- publish_tables, day_published_by and tables_unless_published in Publish, publish in Publish.Run, from what
-- the run left behind on (a record Run or Tables, whose files are names and sizes). The aws command line is
-- the record Aws: each call takes the state of the destination and returns the next one, so that others may
-- write there between two calls, and nothing is asked of it. The exceptions Refused and Failed are values.
-- Publish.Day has data_day, check_published and the choice of recorded_tables_times; what a regular
-- expression finds in the source paths, and what \d takes, are arguments. Publish.Listed, Publish.Complete
-- and Publish.Run.Published have the theorems.
--
-- Holidays (bin/federal_holidays.py). nth_weekday, observed, holidays and holiday, over the ordinals of
-- dates as datetime counts them; a holiday is a constructor instead of its name. Holidays.Workdays has the
-- theorems.
--
-- Naming (spark_jobs/pyg_builder/naming.py). prefixed_local_name and the column that prefixed_local_name_expr
-- computes, relation_to_predicate_uri, _namespace_of and check_registered_names, over URIs as texts. The
-- table of namespaces, Spark's hash and find_uris are arguments. The expression's patterns are read as Java
-- reads them, whose `$` may stand before a line terminator (replace_ends, regexp_extract), and apart from
-- the strip and the search of the twin (strip, last_segment). Naming.RoundTrip, Naming.Twins and
-- Naming.Registered have the theorems.
--
-- Identifiers (spark_jobs/utils/sec_identifiers.py). canonicalize_sec_identifiers with its rules for URIs and
-- for literals, on rows whose cells are texts. The patterns are read as Java reads them: a captured run of
-- digits, and an end that may stand before one line terminator. lpad is as _padded describes it, and cuts
-- what is too long. Identifiers.Digits has the numbers that digit texts are; Identifiers.Keyed and
-- Identifiers.Uris are about URIs, Identifiers.Padding and Identifiers.Settled about repairing twice, and
-- Identifiers.Spelling about the spellings of a number.
--
-- Turtle (spark_jobs/graph/turtle.py). Turtle.Terms has what the parser gives, Turtle.Labels
-- deterministic_bnode_labels and _blank_node_labels, Turtle.Rows turtle_to_rows and turtle_rows_or_skip,
-- Turtle.Batches the generator turtle_batches_to_arrow, run to its end or to an ImportError. The parser, the
-- converters of rdflib and the way it writes a literal, sha1, the order of a set and the whitespace that
-- str.strip takes are the record Outside; that rdflib can be imported is taken for granted. Turtle.Groups and
-- Turtle.Bounded are about the batches, Turtle.Numbered, Turtle.Apart and Turtle.Distinct about the labels.
--
-- Collisions (spark_jobs/pyg_builder/collision_report.py). compute_collision_report, _class_code_rank and
-- check_class_identity_capacity, over slots as lists. numpy's matrix_rank is an argument, the problems of a
-- build are values instead of sentences, and 0.85 is the double. Collisions.Shared is about codes that are
-- apart, Collisions.Separable about the check.
--
-- Reclaim (bin/mem_reclaim.py). main asks for memory until enough of it is free. Its loop is ask, on fuel: a
-- round for each chunk that fits in the aim and two more, which Reclaim.Ends proves enough.
--
-- Nodes (spark_jobs/pyg_builder/node_mapper.py). node_id_df is the table that build_node_id_table numbers the
-- entities in: a frame is a list of rows, a join or a window a function of it. The types that an entity has
-- come from Naming. Nodes.Table has the counts and the check of names, Nodes.Origins build_type_uri_mapping.
-- Nodes.Order and Nodes.First are about the one type of an entity, Nodes.Numbers, Nodes.Once, Nodes.Below and
-- Nodes.Tabled about its number, Nodes.Named, Nodes.Least and Nodes.Mapping about the mapping.
--
-- Edges (spark_jobs/pyg_builder/edge_mapper.py). The triples are joined with the rows of Nodes twice; Edges has
-- the joins and the order of the frame, Edges.Build the chunks, the tensors and build_edge_indices, which
-- raises where the check of Naming refuses. Edges.Joined is about the joins, Edges.Types and Edges.Ids about
-- the ids of edge types, Edges.Sorted and Edges.Pairs about the order and the duplicates, Edges.Chunks and
-- Edges.Budget about the chunks, Edges.Filed, Edges.Collect, Edges.Indexed and Edges.Returned about the dict of
-- tensors, Edges.Bounds about its ids. Edges.Numbered has the numbers that edge_feature_extractor.py gives the
-- edges, and compares them with the columns of the tensors.
--
-- Base has the shared names, lists measured by native numbers, association lists for dicts, the type of
-- results, texts, the order of tuples, and sorted sets. Examples has the theorems at concrete inputs and runs to follow in the source.
--
-- Bounds: positions, keys and counts are natural numbers, as Python's integers do not wrap; a dim that may
-- be negative is an integer. A row budget of the edges below 1 counts as 1, as in the source. A negative position in a TrimSpec, which _problems reports, has no counterpart.
-- Dicts are association lists whose keys are apart, as a Python dict keeps them.
--
-- Not modelled: the Spark jobs that load, link, enrich and persist triples, the assembly of the graph, the
-- feature extractors and encoders, the reading of a run and the archive of bin/publish_run.py, the HTTP and
-- file side of the watchdog, the functions that a source's spec carries, the printing methods (to_dict,
-- summary), and the scripts that make fixtures and reports. They are input and output, or compositions of
-- Spark transformations.
pub mod Base
pub mod Layout
pub mod Trim
pub mod Watchdog
pub mod Sources
pub mod Publish
pub mod Holidays
pub mod Naming
pub mod Identifiers
pub mod Turtle
pub mod Collisions
pub mod Reclaim
pub mod Nodes
pub mod Edges
pub mod Examples
