-- ===== src/Lib.antt =====
-- Vcsn: weighted rational expressions and their algebra.
--
-- The program is a C++ library of weighted automata and rational expressions. This development models
-- the part that the rest stands on: the weights, the labels, the expressions with the constructors
-- that simplify them, the polynomials and the expansions of expressions, the algorithms that compute
-- constant terms, derivatives, expansions and transpositions, the automata, and some algorithms on
-- them.
--
-- Weight, with Weight/: the interface of a weightset and the laws of a semiring. Weight/B is
--   vcsn/weightset/b.hh, Weight/F2 is f2.hh, Weight/Nmin is nmin.hh over min-plus.hh, with unsigned
--   integers of 32 bits that wrap around; Weight/Tropical is the semiring that nmin stands for.
--   power is that of weightset.hh. Weights of floating-point numbers are left out.
-- Label: the interface of a labelset. Label/Letters is vcsn/labelset/letterset.hh and wordset.hh over
--   the characters of vcsn/alphabets/char.hh, which are the numbers of their bytes; Label/Chars is the
--   products and the delimiters of char.hh.
-- Series, with Series/: formal power series, the specification. A series is a function from words to
--   weights; its operations are written from the algebra.
-- Rat: the nodes of vcsn/core/rat/fwd.hh and expression.hh. Shared pointers are values here, since no
--   expression is changed once made. Tuples of several tapes are left out.
--   Rat/Identities is identities.hh; Rat/Order is size.hh and compare.hh; Rat/Denote gives each
--   expression its series. Left quotients and compositions have any meaning.
--   Rat/Make and its children are the constructors of vcsn/core/rat/expressionset.hxx, in the order of
--   that file: atom, lweight and rweight in Make, then Add, Mul, Product (conjunction, ldivide,
--   infiltrate, shuffle, power), Unary (star, complement) and Transposition, to which the deep
--   transposition is given. Not modelled: compose, concat, rdivide.
--   Rat/Constant is vcsn/algos/constant-term.hh and is-valid-expression.hh. Rat/Derivation is
--   vcsn/algos/derivation.hh; the left division of the weights is an argument of it.
--   Rat/Expansion is vcsn/core/rat/expansionset.hh, over a letterized labelset without a label
--   one. Its child modules are about the entries and their order (Maps), the search in the
--   traversal of two maps (Zip), the erasure of null values (Erase), the loops (Loops), and the operations (Laws,
--   Scale, Products). Rat/ToExpansion is vcsn/algos/to-expansion.hh, whose visitor is a function of its flag
--   transposed_ and of the naming expression; the left division of the weights, the letters and the
--   deep transposition are its arguments. Expandable is what is covered: letters, no quotient, no
--   complement. Rat/Transpose is vcsn/core/rat/transpose.hh.
-- Poly: vcsn/weightset/polynomialset.hh over the sorted map of vcsn/misc/wet.hh. A search of the map
--   walks the list in the order of the labels. Poly/Zip is vcsn/misc/zip-maps.hh for two maps, with
--   the rounds of its loops counted: Pairs is the specification, Aligned shows that the rounds are
--   enough, and Total is the traversal without the count.
-- Automaton: vcsn/core/mutable-automaton.hh and transition.hh. A vector is its size and a function on
--   the indexes, and a method that changes the automaton returns the changed one. Handles is the
--   vectors of handles, Queries, Edit and Ranges are the methods, in the order of that file, and
--   Ranges has the ranges of vcsn/core/automaton.hh too: out_visible and in_visible are its out and in
--   without a label, in_label is in with one, and del_between is del_transition of two states. Two
--   methods with one name are told apart by the argument: has_handle and del_handle are
--   has_transition and del_transition of a handle. An assertion is a hypothesis. Consistent is the
--   invariant of the tables; Remove, Delete, Erase and Bury are about what removes transitions, with
--   Filter and Between, States and Grow about the states, Insert and Store about what adds
--   transitions. Lookup, Weights, Changes, Refine and Table see the automaton as a map from source,
--   destination and label to a weight. Reach is the automata that sequences of editions build.
--   The transitions of Boolean automata, which store no weight, are stored as the others are.
-- Algos: the algorithms on automata. Evaluate is the evaluation of a word on a free labelset
--   (vcsn/algos/evaluate.hh), with its two vectors that grow on demand; the specification is the sum
--   over the paths, behaviour. Accessible is accessible.hh: a set of states is a list, and the number
--   of turns is that of the slots for states, which is enough since each is queued at most once.
--   Checks is is-deterministic.hh and is-complete.hh, and Complement is complement.hh.
-- Base: the shared names and lemmas. Result is a value or the kind of an exception (vcsn/misc/raise.hh).
-- Examples: concrete runs, and the theorems at concrete expressions.
--
-- The loop of the evaluation on the states, whose bound is the size of a vector that grows, has as
-- many turns at most as the automaton has slots for states; the vectors never grow beyond that, so the
-- loop is never cut. The search of the accessible states has as many turns at most, and its work list
-- is empty before they are used up. The traversal of two maps has as many turns as the first has
-- entries, and two more rounds for each alignment than the second has entries. All other recursion is
-- structural, so no fuel is needed: a constructor that calls itself does so on a part of one of its
-- arguments. The constructors use each other in the order weights, sums, products; the derivation and
-- the expansions use the polynomials with the constructors as the operations on labels, and the
-- expansions use the deep transposition where the identities are agressive. The evaluation reads the
-- automaton by its ranges.
--
-- Not modelled: the other algorithms on automata, automata that decorate others, lazy automata but for
-- the marks of their states, printing, copies of transitions between automata, tuples of several tapes,
-- derived terms, expansions over labelsets that have a label one (their quotients and compositions
-- included), the determinization of expansions, the dynamic layer, the parsers, the bindings.
pub mod Base
pub mod Weight
pub mod Series
pub mod Label
pub mod Rat
pub mod Poly
pub mod Automaton
pub mod Algos
pub mod Examples
