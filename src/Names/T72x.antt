-- ===== src/Names/T72x.antt =====
-- hwc_names.hpp: the counter names of the T72x GPUs, 64 for each of the four blocks in the order of
-- their memory layout. An empty name is a hole in the block.
use hwcpipe.Common.{String, List, [], ◌∷◌, ◌++◌}

abbrev pub job_manager : List String
job_manager =
    "" ∷ "" ∷ "" ∷ "" ∷ "T72x_GPU_ACTIVE" ∷ "T72x_IRQ_ACTIVE" ∷ "T72x_JS0_JOBS" ∷ "T72x_JS0_TASKS"
    ∷ "T72x_JS0_ACTIVE" ∷ "T72x_JS1_JOBS" ∷ "T72x_JS1_TASKS" ∷ "T72x_JS1_ACTIVE" ∷ "T72x_JS2_JOBS"
    ∷ "T72x_JS2_TASKS" ∷ "T72x_JS2_ACTIVE" ∷ "" ∷ "" ∷ "" ∷ "" ∷ "" ∷ "" ∷ "" ∷ "" ∷ "" ∷ "" ∷ ""
    ∷ "" ∷ "" ∷ "" ∷ "" ∷ "" ∷ "" ∷ "" ∷ "" ∷ "" ∷ "" ∷ "" ∷ "" ∷ "" ∷ "" ∷ "" ∷ "" ∷ "" ∷ "" ∷ ""
    ∷ "" ∷ "" ∷ "" ∷ "" ∷ "" ∷ "" ∷ "" ∷ "" ∷ "" ∷ "" ∷ "" ∷ "" ∷ "" ∷ "" ∷ "" ∷ "" ∷ "" ∷ "" ∷ ""
    ∷ []

abbrev pub tiler : List String
tiler =
    "" ∷ "" ∷ "" ∷ "T72x_TI_JOBS_PROCESSED" ∷ "T72x_TI_TRIANGLES" ∷ "T72x_TI_QUADS"
    ∷ "T72x_TI_POLYGONS" ∷ "T72x_TI_POINTS" ∷ "T72x_TI_LINES" ∷ "T72x_TI_FRONT_FACING"
    ∷ "T72x_TI_BACK_FACING" ∷ "T72x_TI_PRIM_VISIBLE" ∷ "T72x_TI_PRIM_CULLED"
    ∷ "T72x_TI_PRIM_CLIPPED" ∷ "" ∷ "" ∷ "" ∷ "" ∷ "" ∷ "" ∷ "" ∷ "" ∷ "T72x_TI_ACTIVE" ∷ "" ∷ ""
    ∷ "" ∷ "" ∷ "" ∷ "" ∷ "" ∷ "" ∷ "" ∷ "" ∷ "" ∷ "" ∷ "" ∷ "" ∷ "" ∷ "" ∷ "" ∷ "" ∷ "" ∷ "" ∷ ""
    ∷ "" ∷ "" ∷ "" ∷ "" ∷ "" ∷ "" ∷ "" ∷ "" ∷ "" ∷ "" ∷ "" ∷ "" ∷ "" ∷ "" ∷ "" ∷ "" ∷ "" ∷ "" ∷ ""
    ∷ "" ∷ []

abbrev pub shader : List String
shader =
    "" ∷ "" ∷ "" ∷ "" ∷ "T72x_FRAG_ACTIVE" ∷ "T72x_FRAG_PRIMITIVES" ∷ "T72x_FRAG_PRIMITIVES_DROPPED"
    ∷ "T72x_FRAG_THREADS" ∷ "T72x_FRAG_DUMMY_THREADS" ∷ "T72x_FRAG_QUADS_RAST"
    ∷ "T72x_FRAG_QUADS_EZS_TEST" ∷ "T72x_FRAG_QUADS_EZS_KILLED" ∷ "T72x_FRAG_THREADS_LZS_TEST"
    ∷ "T72x_FRAG_THREADS_LZS_KILLED" ∷ "T72x_FRAG_CYCLES_NO_TILE" ∷ "T72x_FRAG_NUM_TILES"
    ∷ "T72x_FRAG_TRANS_ELIM" ∷ "T72x_COMPUTE_ACTIVE" ∷ "T72x_COMPUTE_TASKS" ∷ "T72x_COMPUTE_THREADS"
    ∷ "T72x_TRIPIPE_ACTIVE" ∷ "T72x_ARITH_WORDS" ∷ "T72x_ARITH_CYCLES_REG" ∷ "T72x_LS_WORDS"
    ∷ "T72x_LS_ISSUES" ∷ "T72x_LS_RESTARTS" ∷ "T72x_LS_REISSUES_MISS" ∷ "T72x_TEX_WORDS"
    ∷ "T72x_TEX_BUBBLES" ∷ "T72x_TEX_ISSUES" ∷ "T72x_LSC_READ_HITS" ∷ "T72x_LSC_READ_MISSES"
    ∷ "T72x_LSC_WRITE_HITS" ∷ "T72x_LSC_WRITE_MISSES" ∷ "T72x_LSC_ATOMIC_HITS"
    ∷ "T72x_LSC_ATOMIC_MISSES" ∷ "T72x_LSC_LINE_FETCHES" ∷ "T72x_LSC_DIRTY_LINE" ∷ "T72x_LSC_SNOOPS"
    ∷ "" ∷ "" ∷ "" ∷ "" ∷ "" ∷ "" ∷ "" ∷ "" ∷ "" ∷ "" ∷ "" ∷ "" ∷ "" ∷ "" ∷ "" ∷ "" ∷ "" ∷ "" ∷ ""
    ∷ "" ∷ "" ∷ "" ∷ "" ∷ "" ∷ "" ∷ []

abbrev pub memory_system : List String
memory_system =
    "" ∷ "" ∷ "" ∷ "" ∷ "T72x_L2_EXT_WRITE_BEAT" ∷ "T72x_L2_EXT_READ_BEAT" ∷ "T72x_L2_READ_SNOOP"
    ∷ "T72x_L2_READ_HIT" ∷ "T72x_L2_WRITE_SNOOP" ∷ "T72x_L2_WRITE_HIT" ∷ "T72x_L2_EXT_WRITE_SMALL"
    ∷ "T72x_L2_EXT_BARRIER" ∷ "T72x_L2_EXT_AR_STALL" ∷ "T72x_L2_EXT_W_STALL" ∷ "T72x_L2_SNOOP_FULL"
    ∷ "" ∷ "" ∷ "" ∷ "" ∷ "" ∷ "" ∷ "" ∷ "" ∷ "" ∷ "" ∷ "" ∷ "" ∷ "" ∷ "" ∷ "" ∷ "" ∷ "" ∷ "" ∷ ""
    ∷ "" ∷ "" ∷ "" ∷ "" ∷ "" ∷ "" ∷ "" ∷ "" ∷ "" ∷ "" ∷ "" ∷ "" ∷ "" ∷ "" ∷ "" ∷ "" ∷ "" ∷ "" ∷ ""
    ∷ "" ∷ "" ∷ "" ∷ "" ∷ "" ∷ "" ∷ "" ∷ "" ∷ "" ∷ "" ∷ "" ∷ []

unfoldable pub hardware_counters : List String
hardware_counters = job_manager ++ (tiler ++ (shader ++ memory_system))
